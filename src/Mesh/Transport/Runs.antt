-- ===== src/Mesh/Transport/Runs.antt =====
-- internal/mesh/transport.go: the table of connections after any interleaving of the goroutines.
use agent_dns.Mesh.Peers.{PeerManager}
use agent_dns.Mesh.Transport.{
  PeerConn, Transport, Step, Steps, accepts, enters, announces, leaves, finishes, here, then_,
  new_transport, accept, enter, announce, leave, finish,
}
use agent_dns.Mesh.Transport.Table.{
  IsOpen, IsTracked, new_transport-IsTracked, accept-IsTracked, enter-IsTracked, announce-IsTracked,
  leave-IsTracked, finish-IsTracked,
}
use agent_dns.Prelude.{◌≡◌, ◌≢◌, refl, sym, ◌∙◌, some, Bytes, Bytes-discrete}
use agent_dns.Prelude.Assoc.{lookup}

Step-IsTracked : (t u : Transport) → Step t u → IsTracked t → IsTracked u
Step-IsTracked t _ (accepts conn hello address new other absent) w =
    accept-IsTracked conn hello address t new other w
Step-IsTracked t _ (enters conn s (at, phase)) w = enter-IsTracked conn s t at phase w
Step-IsTracked t _ (announces now conn s (at, phase)) w = announce-IsTracked now conn s t at w
Step-IsTracked t _ (leaves conn s (at, phase)) w = leave-IsTracked conn s t at w
Step-IsTracked t _ (finishes conn s (at, phase)) w = finish-IsTracked conn s t at phase w

Steps-IsTracked : (t u : Transport) → Steps t u → IsTracked t → IsTracked u
Steps-IsTracked t _ here w = w
Steps-IsTracked t _ (then_ {u} {v} run step) w = Step-IsTracked u v step (Steps-IsTracked t u run w)

Step-self_id : (t u : Transport) → Step t u → u.self_id ≡ t.self_id
unfolding accept enter announce leave finish
Step-self_id t _ (accepts conn hello address new other absent) = refl
Step-self_id t _ (enters conn s at) = refl
Step-self_id t _ (announces now conn s at) = refl
Step-self_id t _ (leaves conn s at) = refl
Step-self_id t _ (finishes conn s at) = refl

Steps-self_id : (t u : Transport) → Steps t u → u.self_id ≡ t.self_id
Steps-self_id t _ here = refl
Steps-self_id t _ (then_ {u} {v} run step) = Step-self_id u v step ∙ Steps-self_id t u run

-- After any interleaving of the goroutines of any number of connections, from a transport without
-- any, an entry of the table belongs to a running connection: its goroutine is known, it has written to
-- the table and has not deleted from it yet, and its peer sent the identifier that the entry stands
-- under. The node itself has no entry.
pub connected-IsOpen :
    (self_id : Bytes) (peers : PeerManager) (t : Transport) (id : Bytes) (pc : PeerConn)
    → Steps (new_transport self_id peers) t
    → lookup Bytes-discrete id t.conns ≡ some pc
    → IsOpen t id pc × (id ≢ self_id)
unfolding new_transport
connected-IsOpen self_id peers t id pc run h =
    let start = new_transport self_id peers in
    let w = Steps-IsTracked start t run (new_transport-IsTracked self_id peers) in
    let o = w.opened id pc h in
    (o, λ e. w.foreign pc.conn o.session o.known (o.same ∙ e ∙ sym (Steps-self_id start t run)))
