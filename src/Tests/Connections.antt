-- ===== src/Tests/Connections.antt =====
-- Runs of the connections of the transport.
use agent_dns.Mesh.Peers.{new_peer_manager}
use agent_dns.Mesh.Transport.{
  HelloMessage, PeerConn, Session, Transport, Steps, checked, entered, serving, accepts, enters,
  announces, here, then_, new_transport, accept, enter, announce,
}
use agent_dns.Mesh.Transport.Lost.{lost_lem}
use agent_dns.Mesh.Transport.Runs.{connected-IsOpen}
use agent_dns.Mesh.Transport.Table.{IsOpen}
use agent_dns.Prelude.{ℕ, [], ◌≡◌, ◌≢◌, refl, none, some, Bytes-discrete, ℕ_discrete, codes, arith}
use agent_dns.Prelude.Assoc.{lookup, insert}

abbrev hello : HelloMessage
hello = record { registry_id = codes "r2"; name = codes "second"; public_key = []; agent_count = 4 }

abbrev start : Transport
start = new_transport (codes "r1") (new_peer_manager 8)

abbrev session : Session
session = record { hello = hello; address = codes "10.0.0.2:4001"; phase = checked }

abbrev serving_one : Transport
serving_one =
    announce 10 1 (record session { phase = entered })
      (enter 1 session (accept 1 hello (codes "10.0.0.2:4001") start))

foreign : codes "r2" ≢ codes "r1"
foreign e = absurd (ground arith)

run : Steps start serving_one
unfolding new_transport accept enter announce lookup insert ℕ_discrete Bytes-discrete
run =
    then_
      (then_ (then_ here (accepts 1 hello (codes "10.0.0.2:4001") refl foreign refl))
        (enters 1 session (refl, refl)))
      (announces 10 1 (record session { phase = entered }) (refl, refl))

abbrev pc : PeerConn
pc = record {
  conn = 1;
  registry_id = codes "r2";
  name = codes "second";
  address = codes "10.0.0.2:4001";
}

connected : lookup Bytes-discrete (codes "r2") serving_one.conns ≡ some pc
unfolding new_transport accept enter announce lookup insert Bytes-discrete
connected = refl

connected-IsOpen_example : IsOpen serving_one (codes "r2") pc × (codes "r2" ≢ codes "r1")
connected-IsOpen_example =
    connected-IsOpen (codes "r1") (new_peer_manager 8) serving_one (codes "r2") pc run connected

start_empty : (c : ℕ) → lookup ℕ_discrete c start.sessions ≡ none
unfolding new_transport lookup
start_empty c = refl

start_unconnected : lookup Bytes-discrete (codes "r2") start.conns ≡ none
unfolding new_transport lookup
start_unconnected = refl

start_foreign : hello.registry_id ≢ start.self_id
unfolding new_transport
start_foreign = foreign

lost_lem_example :
    (u : Transport) × Steps start u
    × (lookup ℕ_discrete 2 u.sessions
        ≡ some (record { hello = hello; address = codes "10.0.0.2:4001"; phase = serving }))
    × (lookup Bytes-discrete (codes "r2") u.conns ≡ none)
lost_lem_example =
    lost_lem 10 1 2 hello (codes "10.0.0.2:4001") start (λ e. absurd (omega arith)) (start_empty 1)
      (start_empty 2) start_foreign start_unconnected
