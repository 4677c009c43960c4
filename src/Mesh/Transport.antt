-- ===== src/Mesh/Transport.antt =====
-- internal/mesh/transport.go: the table of connections. Each connection is served by its own goroutine, so
-- that the critical sections of several connections come in any order: they are the steps of
-- `Step`. A connection is a number; sockets, dialling and the handshake's messages are left out.
pub mod Table
pub mod Runs
pub mod Lost
use agent_dns.Mesh.Peers.{PeerInfo, PeerManager, add_peer, remove_peer}
use agent_dns.Prelude.{
  ℕ, ◌≡◌, ◌≢◌, List, [], ◌∷◌, Option, none, some, ite, Bytes, Bytes-discrete, ℕ_discrete, length,
}
use agent_dns.Prelude.Assoc.{lookup, insert, erase}

pub record HelloMessage : Type 0 where
  pub registry_id : Bytes
  pub name : Bytes
  pub public_key : Bytes
  pub agent_count : ℕ

pub record PeerConn : Type 0 where
  pub conn : ℕ
  pub registry_id : Bytes
  pub name : Bytes
  pub address : Bytes

-- How far the goroutine of a connection has come: behind the check for an existing connection, behind
-- the write to the table, behind `AddPeer`, behind the deletion from the table.
pub data Phase : Type 0 where
  checked : Phase
  entered : Phase
  serving : Phase
  leaving : Phase

-- A connection whose handshake was accepted.
pub record Session : Type 0 where
  pub hello : HelloMessage
  pub address : Bytes
  pub phase : Phase

pub record Transport : Type 0 where
  pub self_id : Bytes
  pub conns : List (Bytes × PeerConn)
  pub peers : PeerManager
  pub sessions : List (ℕ × Session)

unfoldable pub new_transport : Bytes → PeerManager → Transport
new_transport self_id peers = record { self_id = self_id; conns = []; peers = peers; sessions = [] }

abbrev pub set_session : ℕ → Session → Transport → Transport
set_session conn s t = record t { sessions = insert ℕ_discrete conn s t.sessions }

-- The goroutine is behind its checks: the peer is another node, and has no connection yet.
unfoldable pub accept : ℕ → HelloMessage → Bytes → Transport → Transport
unfolding insert
accept conn hello address t =
    set_session conn (record { hello = hello; address = address; phase = checked }) t

-- The first part of `registerPeer`.
unfoldable pub enter : ℕ → Session → Transport → Transport
unfolding insert
enter conn s t =
    let pc : PeerConn = record {
      conn = conn;
      registry_id = s.hello.registry_id;
      name = s.hello.name;
      address = s.address;
    } in
    set_session conn (record s { phase = entered })
      (record t { conns = insert Bytes-discrete s.hello.registry_id pc t.conns })

-- The peer that `registerPeer` adds.
abbrev pub peer_of : Session → PeerInfo
peer_of s = record {
  registry_id = s.hello.registry_id;
  name = s.hello.name;
  address = s.address;
  public_key = s.hello.public_key;
  agent_count = s.hello.agent_count;
  connected_at = none;
  last_seen = none;
  latency = 0;
  bloom_filter = [];
  registry_host = [];
}

-- The second part of `registerPeer`, at a time.
unfoldable pub announce : ℕ → ℕ → Session → Transport → Transport
unfolding add_peer insert
announce now conn s t =
    set_session conn (record s { phase = serving })
      (record t { peers = add_peer now (peer_of s) t.peers })

-- The first part of `unregisterPeer`, which deletes by the peer's identifier.
unfoldable pub leave : ℕ → Session → Transport → Transport
unfolding insert erase
leave conn s t =
    set_session conn (record s { phase = leaving })
      (record t { conns = erase Bytes-discrete s.hello.registry_id t.conns })

-- The second part of `unregisterPeer`, with which the goroutine ends.
unfoldable pub finish : ℕ → Session → Transport → Transport
unfolding remove_peer erase
finish conn s t = record t {
  peers = remove_peer s.hello.registry_id t.peers;
  sessions = erase ℕ_discrete conn t.sessions;
}

-- The session of a connection, with its phase.
abbrev pub IsAt : Phase → ℕ → Session → Transport → Type 0
IsAt phase conn s t = (lookup ℕ_discrete conn t.sessions ≡ some s) × (s.phase ≡ phase)

-- One critical section of one goroutine.
pub data Step (t : Transport) : Transport → Type 0 where
  accepts :
      (conn : ℕ) (hello : HelloMessage) (address : Bytes)
      → lookup ℕ_discrete conn t.sessions ≡ none
      → hello.registry_id ≢ t.self_id
      → lookup Bytes-discrete hello.registry_id t.conns ≡ none
      → Step t (accept conn hello address t)
  enters : (conn : ℕ) (s : Session) → IsAt checked conn s t → Step t (enter conn s t)
  announces : (now conn : ℕ) (s : Session) → IsAt entered conn s t → Step t (announce now conn s t)
  leaves : (conn : ℕ) (s : Session) → IsAt serving conn s t → Step t (leave conn s t)
  finishes : (conn : ℕ) (s : Session) → IsAt leaving conn s t → Step t (finish conn s t)

-- Any number of steps, the last one last.
pub data Steps (t : Transport) : Transport → Type 0 where
  here : Steps t t
  then_ : {u v : Transport} → Steps t u → Step u v → Steps t v
