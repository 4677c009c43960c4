-- ===== src/Mesh/Peers.antt =====
-- internal/mesh/peers.go: the table of peers and the choice of those that a query is sent to. Each method
-- holds the manager's mutex. A time is in seconds; `last_seen` is what `time.Parse` makes of the text
-- that the field holds, `none` for an error. The order of a map is that of its list, which may be any.
pub mod Choice
pub mod Capacity
use agent_dns.Mesh.Bloom.{BloomFilter, match_count}
use agent_dns.Prelude.{
  ℕ, zero, suc, ◌+◌, ltb, leb, List, [], ◌∷◌, ◌++◌, Option, none, some, ite, Bytes, Bytes-discrete,
  length, map, if◌then◌else◌, Bool, true, false, ◌||◌, decide,
}
use agent_dns.Prelude.Assoc.{lookup, insert, erase}

pub record PeerInfo : Type 0 where
  pub registry_id : Bytes
  pub name : Bytes
  pub address : Bytes
  pub public_key : Bytes
  pub agent_count : ℕ
  pub connected_at : Option ℕ
  pub last_seen : Option ℕ
  pub latency : ℕ
  pub bloom_filter : Bytes
  pub registry_host : Bytes

pub record PeerManager : Type 0 where
  pub peers : List (Bytes × PeerInfo)
  pub max_peers : ℕ
  pub blooms : List (Bytes × BloomFilter)

unfoldable pub new_peer_manager : ℕ → PeerManager
new_peer_manager max_peers = record { peers = []; max_peers = max_peers; blooms = [] }

-- `oldestID == "" || t.Before(oldestTime)`
abbrev pub is_older : Bytes → ℕ → ℕ → Bool
is_older [] time t = true
is_older (b ∷ id) time t = ltb t time

-- The loop of `evictOldest`; a time that cannot be parsed ends it.
unfoldable pub oldest : List (Bytes × PeerInfo) → Bytes → ℕ → Bytes
oldest [] id time = id
oldest ((k, peer) ∷ peers) id time = elim peer.last_seen [
  | none ↦ k
  | some t ↦
      let older = is_older id time t in
      oldest peers (if older then k else id) (if older then t else time)
]

abbrev pub forget : Bytes → PeerManager → PeerManager
forget id pm = record pm {
  peers = erase Bytes-discrete id pm.peers;
  blooms = erase Bytes-discrete id pm.blooms;
}

unfoldable pub evict_oldest : PeerManager → PeerManager
unfolding oldest erase
evict_oldest pm = let id = oldest pm.peers [] 0 in ite (Bytes-discrete id []) pm (forget id pm)

unfoldable pub add_peer : ℕ → PeerInfo → PeerManager → PeerManager
unfolding evict_oldest insert
add_peer now peer pm =
    let room = if leb pm.max_peers (length pm.peers) then evict_oldest pm else pm in
    let seen = record peer { connected_at = some now; last_seen = some now } in
    record room { peers = insert Bytes-discrete peer.registry_id seen room.peers }

unfoldable pub remove_peer : Bytes → PeerManager → PeerManager
unfolding erase
remove_peer registry_id pm = forget registry_id pm

abbrev pub seen_at : ℕ → Bytes → Option PeerInfo → PeerManager → PeerManager
unfolding insert
seen_at now registry_id none pm = pm
seen_at now registry_id (some peer) pm = record pm {
  peers = insert Bytes-discrete registry_id (record peer { last_seen = some now }) pm.peers;
}

unfoldable pub update_peer_last_seen : ℕ → Bytes → PeerManager → PeerManager
unfolding lookup seen_at
update_peer_last_seen now registry_id pm =
    seen_at now registry_id (lookup Bytes-discrete registry_id pm.peers) pm

abbrev pub infos : List (Bytes × PeerInfo) → List PeerInfo
infos [] = []
infos ((id, peer) ∷ peers) = peer ∷ infos peers

unfoldable pub get_peers : PeerManager → List PeerInfo
get_peers pm = infos pm.peers

unfoldable pub get_peer : Bytes → PeerManager → Option PeerInfo
unfolding lookup
get_peer registry_id pm = lookup Bytes-discrete registry_id pm.peers

unfoldable pub peer_count : PeerManager → ℕ
peer_count pm = length pm.peers

unfoldable pub set_peer_bloom_filter : Bytes → BloomFilter → PeerManager → PeerManager
unfolding insert
set_peer_bloom_filter registry_id bf pm = record pm {
  blooms = insert Bytes-discrete registry_id bf pm.blooms;
}

pub record PeerScore : Type 0 where
  pub peer : PeerInfo
  pub score : ℕ

-- A peer with no filter gets the score 1.
abbrev pub matches : List Bytes → Option BloomFilter → ℕ
unfolding match_count
matches query_tokens none = 1
matches query_tokens (some bf) = match_count query_tokens bf

unfoldable pub scored_peers :
    List Bytes → List (Bytes × BloomFilter) → List (Bytes × PeerInfo) → List PeerScore
unfolding lookup matches
scored_peers query_tokens blooms [] = []
scored_peers query_tokens blooms ((id, peer) ∷ peers) =
    record { peer = peer; score = matches query_tokens (lookup Bytes-discrete id blooms) }
    ∷ scored_peers query_tokens blooms peers

-- The loop over `j`, for `scored[i]` and what is behind it: `scored[i]` and what is behind it then.
unfoldable pub pass : PeerScore → List PeerScore → PeerScore × List PeerScore
pass x [] = (x, [])
pass x (y ∷ ys) =
    let swap = ltb x.score y.score in
    let (best, rest) = pass (if swap then y else x) ys in (best, (if swap then x else y) ∷ rest)

-- The loop over `i`, `n` rounds of it.
unfoldable pub exchange_sort : ℕ → List PeerScore → List PeerScore
unfolding pass
exchange_sort zero xs = xs
exchange_sort (suc n) [] = []
exchange_sort (suc n) (x ∷ xs) = let (best, rest) = pass x xs in best ∷ exchange_sort n rest

-- The last loop, which may still append `n` peers.
unfoldable pub pick : ℕ → List PeerScore → List PeerInfo
pick zero scored = []
pick (suc n) [] = []
pick (suc n) (ps ∷ scored) =
    let enough = leb 1 ps.score in
    let rest = pick (if enough then n else suc n) scored in if enough then ps.peer ∷ rest else rest

unfoldable pub get_relevant_peers : List Bytes → ℕ → PeerManager → List PeerInfo
unfolding scored_peers exchange_sort pick
get_relevant_peers query_tokens max_peers pm =
    let scored = scored_peers query_tokens pm.blooms pm.peers in
    pick max_peers (exchange_sort (length scored) scored)
