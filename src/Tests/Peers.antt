-- ===== src/Tests/Peers.antt =====
-- Runs on the table of peers.
use agent_dns.Mesh.Bloom.{new_bloom_filter, add}
use agent_dns.Mesh.Peers.{
  PeerInfo, PeerManager, PeerScore, new_peer_manager, add_peer, set_peer_bloom_filter,
  get_relevant_peers,
}
use agent_dns.Mesh.Peers.Capacity.{IsTable, IsOldest, new_peer_manager-IsTable, add_peer_lem}
use agent_dns.Mesh.Peers.Choice.{ranked_peer, Descending, AreFirst, get_relevant_peers_lem}
use agent_dns.Prelude.{
  ◌≤◌, ◌≡◌, ◌≢◌, some, none, List, [], ◌∷◌, Bytes, Bytes-discrete, codes, length, map, ◌⊎◌, arith,
}
use agent_dns.Prelude.Assoc.{lookup}
use mathlib.Core.List.{Perm}

abbrev peer : Bytes → PeerInfo
peer id = record {
  registry_id = id;
  name = id;
  address = codes "10.0.0.1:4001";
  public_key = [];
  agent_count = 3;
  connected_at = none;
  last_seen = none;
  latency = 0;
  bloom_filter = [];
  registry_host = [];
}

abbrev first : PeerManager
first = add_peer 10 (peer (codes "r1")) (new_peer_manager 2)

abbrev two : PeerManager
two = add_peer 20 (peer (codes "r2")) first

named : {id : Bytes} → (1 ≤ length id) → id ≢ []
named h e = absurd (ground (arith, h, e))

first-IsTable : IsTable first
first-IsTable =
    (add_peer_lem 10 (peer (codes "r1")) (new_peer_manager 2) (new_peer_manager-IsTable 2)
      (named (omega arith))).0

two-IsTable : IsTable two
two-IsTable = (add_peer_lem 20 (peer (codes "r2")) first first-IsTable (named (omega arith))).0

-- A third peer in a table of two.
add_peer_lem_example :
    IsTable (add_peer 30 (peer (codes "r3")) two)
    × (lookup Bytes-discrete (codes "r3") (add_peer 30 (peer (codes "r3")) two).peers
        ≡ some (record (peer (codes "r3")) { connected_at = some 30; last_seen = some 30 }))
    × ((j : Bytes)
        → codes "r3" ≢ j
        → (lookup Bytes-discrete j (add_peer 30 (peer (codes "r3")) two).peers
            ≡ lookup Bytes-discrete j two.peers)
          ⊎ ((lookup Bytes-discrete j (add_peer 30 (peer (codes "r3")) two).peers ≡ none)
              × (two.max_peers ≤ length two.peers)
              × IsOldest j two.peers))
add_peer_lem_example = add_peer_lem 30 (peer (codes "r3")) two two-IsTable (named (omega arith))

abbrev routed : PeerManager
routed = set_peer_bloom_filter (codes "r2") (add (codes "nlp") (new_bloom_filter 96 7)) two

get_relevant_peers_lem_example :
    (sorted : List PeerScore) × Perm sorted
      (map (ranked_peer (codes "nlp" ∷ codes "vision" ∷ []) routed.blooms) routed.peers)
    × Descending sorted
    × AreFirst 1 sorted (get_relevant_peers (codes "nlp" ∷ codes "vision" ∷ []) 1 routed)
get_relevant_peers_lem_example = get_relevant_peers_lem (codes "nlp" ∷ codes "vision" ∷ []) 1 routed
