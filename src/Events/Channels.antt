-- ===== src/Events/Channels.antt =====
-- internal/events/bus.go: the channels of the subscribers are open, and a publication reaches each of them
-- once.
use agent_dns.Events.{
  Event, Channel, Bus, put, empty, new_bus, subscribe, unsubscribe, offered, send_all, publish,
  receive,
}
use agent_dns.Prelude.{
  ℕ, ◌≡◌, ◌≢◌, ◌<◌, refl, sym, ap, ◌∙◌, List, [], ◌∷◌, none, some, true, false, Bytes, ℕ_discrete,
  drop, if◌then◌else◌, if_pos, if_neg, arith, inl, inr, subst,
}
use agent_dns.Prelude.Assoc.{
  lookup, erase, Unique, insert-Unique, lookup-insert_cases, lookup-erase_found,
}
use agent_dns.Prelude.Assoc.Totals.{erase-Unique}
use mathlib.Core.Option.{none-ne-some}

module _ {Data : Type 0} where
  -- A subscriber's channel was made, and is open.
  pub record IsValid (b : Bus Data) : Type 0 where
    pub once : Unique ℕ_discrete b.subscribers
    pub made : (c : ℕ) → lookup ℕ_discrete c b.subscribers ≡ some tt → c < b.next
    pub opened :
        (c : ℕ) → lookup ℕ_discrete c b.subscribers ≡ some tt → (b.channels c).closed ≡ false

  pub put_self : (c : ℕ) (x : Channel Data) (h : ℕ → Channel Data) → put c x h c ≡ x
  unfolding put
  put_self c x h = if_pos (ℕ_discrete c c) refl x (h c)

  pub put_other : (c d : ℕ) (x : Channel Data) (h : ℕ → Channel Data) → c ≢ d → put c x h d ≡ h d
  unfolding put
  put_other c d x h n = if_neg (ℕ_discrete c d) n x (h d)

  offered-closed : (e : Event Data) (x : Channel Data) → (offered e x).closed ≡ x.closed
  unfolding offered
  offered-closed e x = ground arith

  pub new_bus-IsValid : IsValid (new_bus {Data = Data})
  unfolding new_bus lookup
  new_bus-IsValid = record { once = tt; made = λ c h. absurd (ground arith); opened = λ c h. refl }

  pub subscribe-IsValid : (b : Bus Data) → IsValid b → IsValid (subscribe b).1
  unfolding subscribe
  subscribe-IsValid b v = record {
    once = insert-Unique ℕ_discrete b.next tt b.subscribers v.once;
    made = λ c h. elim (lookup-insert_cases ℕ_discrete b.next c tt tt b.subscribers h) [
      | inl (e, _) ↦ omega (arith, e)
      | inr (n, q) ↦ omega (arith, v.made c q)
    ];
    opened = λ c h. elim (lookup-insert_cases ℕ_discrete b.next c tt tt b.subscribers h) [
      | inl (e, _) ↦
          ap (λ d. (put b.next empty b.channels d).closed) (sym e)
          ∙ ap (λ (x : Channel Data). x.closed) (put_self b.next empty b.channels)
      | inr (n, q) ↦
          ap (λ (x : Channel Data). x.closed) (put_other b.next c empty b.channels n) ∙ v.opened c q
    ];
  }

  pub unsubscribe-IsValid :
      (c : ℕ) (b : Bus Data)
      → IsValid b
      → lookup ℕ_discrete c b.subscribers ≡ some tt
      → (b' : Bus Data) × (unsubscribe c b ≡ some b')
        × IsValid b'
        × (b'.subscribers ≡ erase ℕ_discrete c b.subscribers)
        × ((d : ℕ) → c ≢ d → b'.channels d ≡ b.channels d)
  unfolding unsubscribe
  unsubscribe-IsValid c b v h =
      let shut : Channel Data = record (b.channels c) { closed = true } in
      (
        record b {
          subscribers = erase ℕ_discrete c b.subscribers;
          channels = put c shut b.channels;
        },
        rw (v.opened c h) refl,
        record {
          once = erase-Unique ℕ_discrete c b.subscribers v.once;
          made = λ d q. v.made d (lookup-erase_found ℕ_discrete c d tt b.subscribers q).1;
          opened = λ d q.
              let (n, r) = lookup-erase_found ℕ_discrete c d tt b.subscribers q in
              ap (λ (x : Channel Data). x.closed) (put_other c d shut b.channels n) ∙ v.opened d r;
        },
        refl,
        λ d n. put_other c d shut b.channels n,
      )

  -- What the loop does to each channel: those of the subscribers are offered the event, once.
  pub send_all-reaches :
      (e : Event Data) (subs : List {0} (ℕ × Unit)) (h : ℕ → Channel Data)
      → Unique ℕ_discrete subs
      → ((c : ℕ) → lookup ℕ_discrete c subs ≡ some tt → (h c).closed ≡ false)
      → (k : ℕ → Channel Data) × (send_all e subs h ≡ some k)
        × ((c : ℕ) → lookup ℕ_discrete c subs ≡ some tt → k c ≡ offered e (h c))
        × ((c : ℕ) → lookup ℕ_discrete c subs ≡ none → k c ≡ h c)
  unfolding send_all lookup
  send_all-reaches e [] h u o = (h, refl, λ c q. absurd (ground arith), λ c q. refl)
  send_all-reaches e ((ch, _) ∷ subs) h (new, u) o =
      let g = put ch (offered e (h ch)) h in
      let apart : (c : ℕ) → lookup ℕ_discrete c subs ≡ some tt → ch ≢ c =
        λ c q p. none-ne-some tt (sym new ∙ ap (λ d. lookup ℕ_discrete d subs) p ∙ q) in
      let tail : (c : ℕ)
          → lookup ℕ_discrete c subs ≡ some tt
          → lookup ℕ_discrete c ((ch, tt) ∷ subs) ≡ some tt =
        λ c q. if_neg (ℕ_discrete ch c) (apart c q) (some tt) _ ∙ q in
      let here : (h ch).closed ≡ false = o ch (if_pos (ℕ_discrete ch ch) refl (some tt) _) in
      let (k, sent, reached, kept) = send_all-reaches e subs g u (λ c q.
        ap (λ (x : Channel Data). x.closed) (put_other ch c (offered e (h ch)) h (apart c q))
        ∙ o c (tail c q)) in
      (
        k,
        ap (λ shut. if shut then none else send_all e subs g) here ∙ sent,
        λ c q. elim (ℕ_discrete ch c) [
          | yes p ↦
              subst (λ d. k d ≡ offered e (h d)) p (kept ch new ∙ put_self ch (offered e (h ch)) h)
          | no n ↦
              reached c (sym (if_neg (ℕ_discrete ch c) n (some tt) _) ∙ q)
              ∙ ap (offered e) (put_other ch c (offered e (h ch)) h n)
        ],
        λ c q. elim (ℕ_discrete ch c) [
          | yes p ↦ absurd (none-ne-some tt (sym q ∙ if_pos (ℕ_discrete ch c) p (some tt) _))
          | no n ↦
              kept c (sym (if_neg (ℕ_discrete ch c) n (some tt) _) ∙ q)
              ∙ put_other ch c (offered e (h ch)) h n
        ],
      )

  -- On a valid bus `Publish` does not panic, and the bus stays valid. Each subscriber's channel is offered
  -- the event once; the other channels stay as they are.
  pub publish-IsValid :
      (kind now : Bytes) (payload : Data) (b : Bus Data)
      → IsValid b
      → let e : Event Data = record { kind = kind; timestamp = now; payload = payload } in
        (b' : Bus Data) × (publish kind now payload b ≡ some b')
        × IsValid b'
        × (b'.subscribers ≡ b.subscribers)
        × ((c : ℕ)
            → lookup ℕ_discrete c b.subscribers ≡ some tt
            → b'.channels c ≡ offered e (b.channels c))
        × ((c : ℕ) → lookup ℕ_discrete c b.subscribers ≡ none → b'.channels c ≡ b.channels c)
  unfolding publish
  publish-IsValid kind now payload b v =
      let e : Event Data = record { kind = kind; timestamp = now; payload = payload } in
      let (k, sent, reached, kept) = send_all-reaches e b.subscribers b.channels v.once v.opened in
      (
        record b { channels = k },
        rw sent refl,
        record {
          once = v.once;
          made = v.made;
          opened = λ c h.
              ap (λ (x : Channel Data). x.closed) (reached c h)
              ∙ offered-closed e (b.channels c)
              ∙ v.opened c h;
        },
        refl,
        reached,
        kept,
      )

  pub receive-IsValid : (c : ℕ) (b : Bus Data) → IsValid b → IsValid (receive c b).1
  unfolding receive
  receive-IsValid c b v =
      let x : Channel Data = record (b.channels c) { buffer = drop 1 (b.channels c).buffer } in
      record {
        once = v.once;
        made = v.made;
        opened = λ d h. elim (ℕ_discrete c d) [
          | yes e ↦
              ap (λ (y : Channel Data). y.closed)
                (ap (put c x b.channels) (sym e) ∙ put_self c x b.channels)
              ∙ ap (λ z. (b.channels z).closed) e
              ∙ v.opened d h
          | no n ↦ ap (λ (y : Channel Data). y.closed) (put_other c d x b.channels n) ∙ v.opened d h
        ];
      }
