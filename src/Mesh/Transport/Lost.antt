-- ===== src/Mesh/Transport/Lost.antt =====
-- internal/mesh/transport.go: two connections of one peer. The check for an existing connection and the
-- write to the table are two critical sections, and the deletion goes by the peer's identifier.
use agent_dns.Mesh.Transport.{
  HelloMessage, Phase, Session, Transport, Steps, checked, entered, serving, accepts, enters,
  announces, leaves, here, then_, accept, enter, announce, leave,
}
use agent_dns.Prelude.{
  ℕ, ◌≡◌, ◌≢◌, refl, sym, ◌∙◌, List, none, some, if_pos, if_neg, Bytes, Bytes-discrete, ℕ_discrete,
}
use agent_dns.Prelude.Assoc.{lookup, insert, lookup-insert, lookup-erase}

own :
    (c : ℕ) (s : Session) (m : List (ℕ × Session))
    → lookup ℕ_discrete c (insert ℕ_discrete c s m) ≡ some s
own c s m = lookup-insert ℕ_discrete c c s m ∙ if_pos (ℕ_discrete c c) refl (some s) _

other :
    (c d : ℕ) (s : Session) (m : List (ℕ × Session))
    → c ≢ d
    → lookup ℕ_discrete d (insert ℕ_discrete c s m) ≡ lookup ℕ_discrete d m
other c d s m n = lookup-insert ℕ_discrete c d s m ∙ if_neg (ℕ_discrete c d) n (some s) _

-- For two new connections over which one peer, which has no entry yet, introduces itself, there is an
-- interleaving after which the goroutine of the second serves its connection, but the table has no
-- entry under the peer's identifier: both pass the check before either writes to the table, and the end of
-- the first deletes the entry of the second.
pub lost_lem :
    (now a b : ℕ) (hello : HelloMessage) (address : Bytes) (t : Transport)
    → a ≢ b
    → lookup ℕ_discrete a t.sessions ≡ none
    → lookup ℕ_discrete b t.sessions ≡ none
    → hello.registry_id ≢ t.self_id
    → lookup Bytes-discrete hello.registry_id t.conns ≡ none
    → (u : Transport) × Steps t u
      × (lookup ℕ_discrete b u.sessions
          ≡ some (record { hello = hello; address = address; phase = serving }))
      × (lookup Bytes-discrete hello.registry_id u.conns ≡ none)
unfolding accept enter announce leave
lost_lem now a b hello address t n fresh_a fresh_b foreign absent =
    let at : Phase → Session =
      λ phase. record { hello = hello; address = address; phase = phase } in
    let two = accept b hello address (accept a hello address t) in
    let first = announce now a (at entered) (enter a (at checked) two) in
    let both = announce now b (at entered) (enter b (at checked) first) in
    (
      leave a (at serving) both,
      then_
          (then_
            (then_
              (then_
                (then_
                  (then_ (then_ here (accepts a hello address fresh_a foreign absent))
                    (accepts b hello address (other a b _ _ n ∙ fresh_b) foreign absent))
                  (enters a (at checked) (other b a _ _ (λ e. n (sym e)) ∙ own a _ _, refl)))
                (announces now a (at entered) (own a _ _, refl)))
              (enters b (at checked) (other a b _ _ n ∙ other a b _ _ n ∙ own b _ _, refl)))
            (announces now b (at entered) (own b _ _, refl)))
          (leaves a (at serving)
            (other b a _ _ (λ e. n (sym e)) ∙ other b a _ _ (λ e. n (sym e)) ∙ own a _ _, refl)),
      other a b _ _ n ∙ own b _ _,
      lookup-erase Bytes-discrete hello.registry_id hello.registry_id both.conns
          ∙ if_pos (Bytes-discrete hello.registry_id hello.registry_id) refl none _,
    )
