-- ===== src/Events/Delivery.antt =====
-- internal/events/bus.go: what a subscriber reads, over any sequence of calls by anyone.
use agent_dns.Events.{
  Event, Channel, put, Bus, empty, subscribe, unsubscribe, publish, receive, capacity,
}
use agent_dns.Events.Channels.{IsValid, subscribe-IsValid, publish-IsValid, put_self}
use agent_dns.Events.Served.{
  IsServed, given, subscribe-IsServed, unsubscribe-IsServed, publish-IsServed, receive-IsServed,
  take-IsServed,
}
use agent_dns.Prelude.{
  ℕ, ◌≡◌, ◌≢◌, ◌≤◌, refl, sym, ap, ◌∙◌, List, [], ◌∷◌, ◌++◌, some, if_pos, subst, Bytes, ℕ_discrete,
  length,
}
use agent_dns.Prelude.Assoc.{lookup, lookup-insert}
use mathlib.Core.List.{Sublistᴰ}
use mathlib.Core.List.Sublistᴰ.{slnil}

module _ {Data : Type 0} where
  -- The calls after a subscriber got its channel `ch`, as long as it does not give it up: with the bus at
  -- the start, the events published, those read from `ch`, and the bus at the end.
  pub data Run (ch : ℕ) (b : Bus Data)
      : List (Event Data) → List (Event Data) → Bus Data → Type 0 where
    begin : Run ch b [] [] b
    subscribes :
        {sent taken : List (Event Data)} {u : Bus Data}
        → Run ch b sent taken u
        → Run ch b sent taken (subscribe u).1
    unsubscribes :
        {sent taken : List (Event Data)} {u : Bus Data} (c : ℕ) (v : Bus Data)
        → Run ch b sent taken u
        → c ≢ ch
        → lookup ℕ_discrete c u.subscribers ≡ some tt
        → unsubscribe c u ≡ some v
        → Run ch b sent taken v
    publishes :
        {sent taken : List (Event Data)} {u : Bus Data} (e : Event Data) (v : Bus Data)
        → Run ch b sent taken u
        → publish e.kind e.timestamp e.payload u ≡ some v
        → Run ch b (sent ++ (e ∷ [])) taken v
    others :
        {sent taken : List (Event Data)} {u : Bus Data} (c : ℕ)
        → Run ch b sent taken u
        → c ≢ ch
        → Run ch b sent taken (receive c u).1
    takes :
        {sent taken : List (Event Data)} {u : Bus Data} (e : Event Data)
        → Run ch b sent taken u
        → (receive ch u).0 ≡ some e
        → Run ch b sent (taken ++ (e ∷ [])) (receive ch u).1

  Run-IsServed :
      (ch : ℕ) (b u : Bus Data) (sent taken : List (Event Data))
      → IsServed ch [] (given ch [] b) b
      → Run ch b sent taken u
      → IsServed ch sent (given ch taken u) u
  Run-IsServed ch b _ _ _ w begin = w
  Run-IsServed ch b _ _ _ w (subscribes {sent} {taken} {u} r) =
      subscribe-IsServed ch sent taken u (Run-IsServed ch b u sent taken w r)
  Run-IsServed ch b _ _ _ w (unsubscribes {sent} {taken} {u} c v r n h done) =
      unsubscribe-IsServed ch c sent taken u v (Run-IsServed ch b u sent taken w r) n h done
  Run-IsServed ch b _ _ _ w (publishes {sent} {taken} {u} e v r done) =
      publish-IsServed ch e sent taken u v (Run-IsServed ch b u sent taken w r) done
  Run-IsServed ch b _ _ _ w (others {sent} {taken} {u} c r n) =
      receive-IsServed ch c sent taken u (Run-IsServed ch b u sent taken w r) n
  Run-IsServed ch b _ _ _ w (takes {sent} {taken} {u} e r h) =
      take-IsServed ch e sent taken u (Run-IsServed ch b u sent taken w r) h

  fresh :
      (b : Bus Data)
      → IsValid b
      → IsServed (subscribe b).0 [] (given (subscribe b).0 [] (subscribe b).1) (subscribe b).1
  unfolding subscribe given
  fresh b v =
      let none_yet : (put b.next empty b.channels b.next).buffer ≡ [] =
        ap (λ (x : Channel Data). x.buffer) (put_self b.next empty b.channels) in
      record {
        valid = subscribe-IsValid b v;
        listed =
            lookup-insert ℕ_discrete b.next b.next tt b.subscribers
            ∙ if_pos (ℕ_discrete b.next b.next) refl (some tt) _;
        part = subst (λ xs. Sublistᴰ xs []) (sym none_yet) slnil;
        whole = λ _. none_yet;
      }

  -- After `Subscribe` on a valid bus, and over any later calls of anyone, by which the subscriber does not
  -- give up its channel, what it has read and what waits in the channel is a subsequence of what was
  -- published since, in that order and nothing twice, and is all of it as long as that is not more than the
  -- channel holds. A further publication does not panic.
  pub delivered_lem :
      (b u : Bus Data) (sent taken : List (Event Data))
      → IsValid b
      → Run (subscribe b).0 (subscribe b).1 sent taken u
      → (let all = taken ++ (u.channels (subscribe b).0).buffer in
          Sublistᴰ all sent × (length sent ≤ capacity → all ≡ sent))
        × ((kind now : Bytes) (payload : Data)
            → (v : Bus Data) × (publish kind now payload u ≡ some v))
  unfolding given
  delivered_lem b u sent taken v r =
      let w = Run-IsServed (subscribe b).0 (subscribe b).1 u sent taken (fresh b v) r in
      (
        (w.part, w.whole),
        λ kind now payload.
            let (x, made, valid, subs, reached, kept) =
              publish-IsValid kind now payload u w.valid in
            (x, made),
      )
