-- ===== src/Mesh/Transport/Table.antt =====
-- internal/mesh/transport.go: what the table of connections holds around each critical section.
use agent_dns.Mesh.Peers.{PeerManager}
use agent_dns.Mesh.Transport.{
  HelloMessage, PeerConn, Phase, Session, Transport, checked, entered, serving, leaving,
  new_transport, accept, enter, announce, leave, finish, set_session,
}
use agent_dns.Prelude.{
  ℕ, ◌≡◌, ◌≢◌, refl, sym, ◌∙◌, ap, Bool, List, inl, inr, true, false, none, some, if_pos, if_neg,
  Bytes, Bytes-discrete, ℕ_discrete, arith, subst,
}
use agent_dns.Prelude.Assoc.{
  lookup-erase, lookup, insert, lookup-insert, lookup-insert_cases, lookup-erase_found,
}
use mathlib.Core.Option.{none-ne-some, some-injective}

-- The phases in which the table may name the connection.
unfoldable pub is_named : Phase → Bool
is_named checked = false
is_named entered = true
is_named serving = true
is_named leaving = false

-- The entry stands for a session of another node, which is between its two critical sections on the
-- table.
pub record IsOpen (t : Transport) (id : Bytes) (pc : PeerConn) : Type 0 where
  pub session : Session
  pub known : lookup ℕ_discrete pc.conn t.sessions ≡ some session
  pub same : session.hello.registry_id ≡ id
  pub phase : is_named session.phase ≡ true

pub record IsTracked (t : Transport) : Type 0 where
  pub foreign :
      (conn : ℕ) (s : Session)
      → lookup ℕ_discrete conn t.sessions ≡ some s
      → s.hello.registry_id ≢ t.self_id
  pub opened :
      (id : Bytes) (pc : PeerConn) → lookup Bytes-discrete id t.conns ≡ some pc → IsOpen t id pc

set_session-foreign :
    (conn : ℕ) (s : Session) (t : Transport)
    → IsTracked t
    → s.hello.registry_id ≢ t.self_id
    → (c : ℕ) (r : Session) → lookup ℕ_discrete c (insert ℕ_discrete conn s t.sessions) ≡ some r
    → r.hello.registry_id ≢ t.self_id
set_session-foreign conn s t w new c r h =
    elim (lookup-insert_cases ℕ_discrete conn c s r t.sessions h) [
      | inl (e, q) ↦ subst (λ (x : Session). x.hello.registry_id ≢ t.self_id) q new
      | inr (n, q) ↦ w.foreign c r q
    ]

pub new_transport-IsTracked :
    (self_id : Bytes) (peers : PeerManager) → IsTracked (new_transport self_id peers)
unfolding new_transport lookup
new_transport-IsTracked self_id peers = record {
  foreign = λ conn s h. absurd (none-ne-some s h);
  opened = λ id pc h. absurd (none-ne-some pc h);
}

-- A session of which the entry does not speak is written.
keep :
    (conn : ℕ) (s : Session) (t u : Transport) (id : Bytes) (pc : PeerConn)
    → u.sessions ≡ insert ℕ_discrete conn s t.sessions
    → (o : IsOpen t id pc) → conn ≢ pc.conn
    → IsOpen u id pc
keep conn s t u id pc e o n = record {
  session = o.session;
  known =
      ap (lookup ℕ_discrete pc.conn) e
      ∙ lookup-insert ℕ_discrete conn pc.conn s t.sessions
      ∙ if_neg (ℕ_discrete conn pc.conn) n (some s) _
      ∙ o.known;
  same = o.same;
  phase = o.phase;
}

written :
    (conn : ℕ) (s : Session) (m : List (ℕ × Session))
    → lookup ℕ_discrete conn (insert ℕ_discrete conn s m) ≡ some s
written conn s m =
    lookup-insert ℕ_discrete conn conn s m ∙ if_pos (ℕ_discrete conn conn) refl (some s) _

-- The session of an entry's connection is not in another phase.
apart :
    (conn : ℕ) (s : Session) (t : Transport) (id : Bytes) (pc : PeerConn)
    → lookup ℕ_discrete conn t.sessions ≡ some s
    → is_named s.phase ≡ false
    → IsOpen t id pc
    → conn ≢ pc.conn
apart conn s t id pc h f o e =
    let q : s ≡ o.session =
      some-injective s o.session (sym h ∙ ap (λ c. lookup ℕ_discrete c t.sessions) e ∙ o.known) in
    let p : true ≡ false = sym o.phase ∙ ap (λ (x : Session). is_named x.phase) (sym q) ∙ f in
    absurd (ground (arith, p))

checked-named : (s : Session) → s.phase ≡ checked → is_named s.phase ≡ false
unfolding is_named
checked-named s h = ap is_named h

pub accept-IsTracked :
    (conn : ℕ) (hello : HelloMessage) (address : Bytes) (t : Transport)
    → lookup ℕ_discrete conn t.sessions ≡ none
    → hello.registry_id ≢ t.self_id
    → IsTracked t
    → IsTracked (accept conn hello address t)
unfolding accept
accept-IsTracked conn hello address t new other w =
    let s : Session = record { hello = hello; address = address; phase = checked } in
    record {
      foreign = set_session-foreign conn s t w other;
      opened = λ id pc h.
          let o = w.opened id pc h in
          keep conn s t (set_session conn s t) id pc refl o (λ e.
            none-ne-some o.session
              (sym new ∙ ap (λ c. lookup ℕ_discrete c t.sessions) e ∙ o.known));
    }

pub enter-IsTracked :
    (conn : ℕ) (s : Session) (t : Transport)
    → lookup ℕ_discrete conn t.sessions ≡ some s
    → s.phase ≡ checked
    → IsTracked t
    → IsTracked (enter conn s t)
unfolding enter is_named
enter-IsTracked conn s t at phase w =
    let r : Session = record s { phase = entered } in
    record {
      foreign = set_session-foreign conn r t w (w.foreign conn s at);
      opened = λ id pc h.
          elim (lookup-insert_cases Bytes-discrete s.hello.registry_id id _ pc t.conns h) [
            | inl (e, q) ↦ record {
              session = r;
              known =
                  ap
                    (λ (x : PeerConn).
                      lookup ℕ_discrete x.conn (insert ℕ_discrete conn r t.sessions))
                    (sym q)
                  ∙ written conn r t.sessions;
              same = e;
              phase = refl;
            }
            | inr (n, q) ↦
                let o = w.opened id pc q in
                keep conn r t (enter conn s t) id pc refl o
                  (apart conn s t id pc at (checked-named s phase) o)
          ];
    }

pub announce-IsTracked :
    (now conn : ℕ) (s : Session) (t : Transport)
    → lookup ℕ_discrete conn t.sessions ≡ some s
    → IsTracked t
    → IsTracked (announce now conn s t)
unfolding announce is_named
announce-IsTracked now conn s t at w =
    let r : Session = record s { phase = serving } in
    record {
      foreign = set_session-foreign conn r t w (w.foreign conn s at);
      opened = λ id pc h.
          let o = w.opened id pc h in
          elim (ℕ_discrete conn pc.conn) [
            | yes e ↦
                let q : s ≡ o.session =
                  some-injective s o.session
                    (sym at ∙ ap (λ c. lookup ℕ_discrete c t.sessions) e ∙ o.known) in
                record {
                  session = r;
                  known =
                      ap (λ c. lookup ℕ_discrete c (insert ℕ_discrete conn r t.sessions)) (sym e)
                      ∙ written conn r t.sessions;
                  same = ap (λ (x : Session). x.hello.registry_id) q ∙ o.same;
                  phase = refl;
                }
            | no n ↦ keep conn r t (announce now conn s t) id pc refl o n
          ];
    }

pub leave-IsTracked :
    (conn : ℕ) (s : Session) (t : Transport)
    → lookup ℕ_discrete conn t.sessions ≡ some s
    → IsTracked t
    → IsTracked (leave conn s t)
unfolding leave
leave-IsTracked conn s t at w =
    let r : Session = record s { phase = leaving } in
    record {
      foreign = set_session-foreign conn r t w (w.foreign conn s at);
      opened = λ id pc h.
          let (n, q) = lookup-erase_found Bytes-discrete s.hello.registry_id id pc t.conns h in
          let o = w.opened id pc q in
          keep conn r t (leave conn s t) id pc refl o (λ e. n (
            ap (λ (x : Session). x.hello.registry_id)
              (some-injective s o.session
                (sym at ∙ ap (λ c. lookup ℕ_discrete c t.sessions) e ∙ o.known))
            ∙ o.same));
    }

pub finish-IsTracked :
    (conn : ℕ) (s : Session) (t : Transport)
    → lookup ℕ_discrete conn t.sessions ≡ some s
    → s.phase ≡ leaving
    → IsTracked t
    → IsTracked (finish conn s t)
unfolding finish is_named
finish-IsTracked conn s t at phase w = record {
  foreign = λ c r h. w.foreign c r (lookup-erase_found ℕ_discrete conn c r t.sessions h).1;
  opened = λ id pc h.
      let o = w.opened id pc h in
      record {
        session = o.session;
        known =
            lookup-erase ℕ_discrete conn pc.conn t.sessions
            ∙ if_neg (ℕ_discrete conn pc.conn) (apart conn s t id pc at (ap is_named phase) o) none
                _
            ∙ o.known;
        same = o.same;
        phase = o.phase;
      };
}
