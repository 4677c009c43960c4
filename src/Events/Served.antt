-- ===== src/Events/Served.antt =====
-- internal/events/bus.go: what each call does to what a subscriber is given.
use agent_dns.Events.{
  Event, Channel, Bus, empty, subscribe, unsubscribe, offered, publish, receive, front, capacity,
}
use agent_dns.Events.Channels.{
  IsValid, subscribe-IsValid, unsubscribe-IsValid, publish-IsValid, receive-IsValid, put_self,
  put_other,
}
use agent_dns.Prelude.{
  ℕ, ◌≡◌, ◌≢◌, ◌≤◌, ◌<◌, refl, sym, ap, ◌∙◌, List, [], ◌∷◌, ◌++◌, none, some, if_neg, subst,
  ℕ_discrete, length, length-append, ltb, drop, Bool-cases, ◌⊎◌, if◌then◌else◌, arith, append_assoc,
  inl, inr,
}
use agent_dns.Prelude.Assoc.{lookup, lookup-insert, lookup-erase}
use mathlib.Core.List.{Sublistᴰ}
use mathlib.Core.List.Sublistᴰ.{slnil, cons, cons-cons}
use mathlib.Core.Option.{some-injective}

module _ {Data : Type 0} where
  -- The channel is the subscriber's, and what it was given so far is part of what was published: all of it
  -- unless more than its capacity was published.
  pub record IsServed (ch : ℕ) (sent given : List (Event Data)) (u : Bus Data) : Type 0 where
    pub valid : IsValid u
    pub listed : lookup ℕ_discrete ch u.subscribers ≡ some tt
    pub part : Sublistᴰ given sent
    pub whole : length sent ≤ capacity → given ≡ sent

  front-drop : (xs : List (Event Data)) (e : Event Data) → front xs ≡ some e → e ∷ drop 1 xs ≡ xs
  front-drop [] e h = absurd (ground arith)
  front-drop (x ∷ xs) e h = ap (λ y. y ∷ xs) (some-injective e x (sym h))

  part_keep :
      (e : Event Data) (xs ys : List (Event Data))
      → Sublistᴰ xs ys
      → Sublistᴰ (xs ++ (e ∷ [])) (ys ++ (e ∷ []))
  part_keep e _ _ slnil = cons-cons refl slnil
  part_keep e _ _ (cons {a} {l₁} {l₂} p) = cons (part_keep e l₁ l₂ p)
  part_keep e _ _ (cons-cons {a} {b} {l₁} {l₂} q p) = cons-cons q (part_keep e l₁ l₂ p)

  part_skip :
      (e : Event Data) (xs ys : List (Event Data)) → Sublistᴰ xs ys → Sublistᴰ xs (ys ++ (e ∷ []))
  part_skip e _ _ slnil = cons slnil
  part_skip e _ _ (cons {a} {l₁} {l₂} p) = cons (part_skip e l₁ l₂ p)
  part_skip e _ _ (cons-cons {a} {b} {l₁} {l₂} q p) = cons-cons q (part_skip e l₁ l₂ p)

  unfoldable pub given : ℕ → List (Event Data) → Bus Data → List (Event Data)
  given ch taken u = taken ++ (u.channels ch).buffer

  -- A call that leaves the channel as it is.
  unaffected :
      (ch : ℕ) (sent taken : List (Event Data)) (u v : Bus Data)
      → IsServed ch sent (given ch taken u) u
      → IsValid v
      → lookup ℕ_discrete ch v.subscribers ≡ some tt
      → v.channels ch ≡ u.channels ch
      → IsServed ch sent (given ch taken v) v
  unfolding given
  unaffected ch sent taken u v w valid listed same =
      let q : given ch taken u ≡ given ch taken v =
        ap (λ (x : Channel Data). taken ++ x.buffer) (sym same) in
      record {
        valid = valid;
        listed = listed;
        part = subst (λ xs. Sublistᴰ xs sent) q w.part;
        whole = λ h. sym q ∙ w.whole h;
      }

  pub subscribe-IsServed :
      (ch : ℕ) (sent taken : List (Event Data)) (u : Bus Data)
      → IsServed ch sent (given ch taken u) u
      → IsServed ch sent (given ch taken (subscribe u).1) (subscribe u).1
  unfolding subscribe
  subscribe-IsServed ch sent taken u w =
      let n : u.next ≢ ch = λ e. absurd (omega (arith, e, w.valid.made ch w.listed)) in
      unaffected ch sent taken u (subscribe u).1 w (subscribe-IsValid u w.valid)
        (lookup-insert ℕ_discrete u.next ch tt u.subscribers
          ∙ if_neg (ℕ_discrete u.next ch) n (some tt) _
          ∙ w.listed)
        (put_other u.next ch empty u.channels n)

  pub unsubscribe-IsServed :
      (ch c : ℕ) (sent taken : List (Event Data)) (u v : Bus Data)
      → IsServed ch sent (given ch taken u) u
      → c ≢ ch
      → lookup ℕ_discrete c u.subscribers ≡ some tt
      → unsubscribe c u ≡ some v
      → IsServed ch sent (given ch taken v) v
  unsubscribe-IsServed ch c sent taken u v w n h done =
      let (x, made, valid, subs, same) = unsubscribe-IsValid c u w.valid h in
      let e : x ≡ v = some-injective x v (sym made ∙ done) in
      subst (λ (y : Bus Data). IsServed ch sent (given ch taken y) y) e
        (unaffected ch sent taken u x w valid
          (ap (lookup ℕ_discrete ch) subs
            ∙ lookup-erase ℕ_discrete c ch u.subscribers
            ∙ if_neg (ℕ_discrete c ch) n none _
            ∙ w.listed)
          (same ch n))

  offered-given :
      (e : Event Data) (x : Channel Data)
      → ((offered e x).buffer ≡ x.buffer ++ (e ∷ [])) × (length x.buffer < capacity)
        ⊎ ((offered e x).buffer ≡ x.buffer) × (capacity ≤ length x.buffer)
  unfolding offered
  offered-given e x = elim (Bool-cases (ltb (length x.buffer) capacity)) [
    | inl h ↦ inl (
      ap (λ (y : Channel Data). y.buffer)
          (ap (λ t. if t then record x { buffer = x.buffer ++ (e ∷ []) } else x) h),
      ground (arith, h),
    )
    | inr h ↦ inr (
      ap (λ (y : Channel Data). y.buffer)
          (ap (λ t. if t then record x { buffer = x.buffer ++ (e ∷ []) } else x) h),
      ground (arith, h),
    )
  ]

  pub publish-IsServed :
      (ch : ℕ) (e : Event Data) (sent taken : List (Event Data)) (u v : Bus Data)
      → IsServed ch sent (given ch taken u) u
      → publish e.kind e.timestamp e.payload u ≡ some v
      → IsServed ch (sent ++ (e ∷ [])) (given ch taken v) v
  unfolding given
  publish-IsServed ch e sent taken u v w done =
      let (x, made, valid, subs, reached, kept) =
        publish-IsValid e.kind e.timestamp e.payload u w.valid in
      let q : x ≡ v = some-injective x v (sym made ∙ done) in
      let listed = ap (lookup ℕ_discrete ch) subs ∙ w.listed in
      subst (λ (y : Bus Data). IsServed ch (sent ++ (e ∷ [])) (given ch taken y) y) q
        (elim (offered-given e (u.channels ch)) [
          | inl (more, room) ↦
              let p : (given ch taken u) ++ (e ∷ []) ≡ given ch taken x =
                append_assoc taken (u.channels ch).buffer (e ∷ [])
                ∙ ap (λ ys. taken ++ ys) (sym more)
                ∙ ap (λ (y : Channel Data). taken ++ y.buffer) (sym (reached ch w.listed)) in
              record {
                valid = valid;
                listed = listed;
                part =
                    subst (λ xs. Sublistᴰ xs (sent ++ (e ∷ []))) p
                      (part_keep e (given ch taken u) sent w.part);
                whole = λ h.
                    sym p
                    ∙ ap (λ xs. xs ++ (e ∷ []))
                        (w.whole (omega (arith, h, length-append sent (e ∷ []))));
              }
          | inr (same, full) ↦
              let p : given ch taken u ≡ given ch taken x =
                ap (λ ys. taken ++ ys) (sym same)
                ∙ ap (λ (y : Channel Data). taken ++ y.buffer) (sym (reached ch w.listed)) in
              record {
                valid = valid;
                listed = listed;
                part =
                    subst (λ xs. Sublistᴰ xs (sent ++ (e ∷ []))) p
                      (part_skip e (given ch taken u) sent w.part);
                whole = λ h.
                    let few : length sent < capacity =
                      omega (arith, h, length-append sent (e ∷ [])) in
                    absurd (
                      omega (
                        arith,
                        full,
                        few,
                        ap length (w.whole (omega (arith, few))),
                        length-append taken (u.channels ch).buffer,
                      ));
              }
        ])

  pub receive-IsServed :
      (ch c : ℕ) (sent taken : List (Event Data)) (u : Bus Data)
      → IsServed ch sent (given ch taken u) u
      → c ≢ ch
      → IsServed ch sent (given ch taken (receive c u).1) (receive c u).1
  unfolding receive
  receive-IsServed ch c sent taken u w n =
      unaffected ch sent taken u (receive c u).1 w (receive-IsValid c u w.valid) w.listed
        (put_other c ch _ u.channels n)

  pub take-IsServed :
      (ch : ℕ) (e : Event Data) (sent taken : List (Event Data)) (u : Bus Data)
      → IsServed ch sent (given ch taken u) u
      → (receive ch u).0 ≡ some e
      → IsServed ch sent (given ch (taken ++ (e ∷ [])) (receive ch u).1) (receive ch u).1
  unfolding receive given
  take-IsServed ch e sent taken u w h =
      let rest : Channel Data = record (u.channels ch) { buffer = drop 1 (u.channels ch).buffer } in
      let q : given ch taken u ≡ given ch (taken ++ (e ∷ [])) (receive ch u).1 =
        ap (λ ys. taken ++ ys) (sym (front-drop (u.channels ch).buffer e h))
        ∙ sym (append_assoc taken (e ∷ []) (drop 1 (u.channels ch).buffer))
        ∙ ap (λ (y : Channel Data). (taken ++ (e ∷ [])) ++ y.buffer)
            (sym (put_self ch rest u.channels)) in
      record {
        valid = receive-IsValid ch u w.valid;
        listed = w.listed;
        part = subst (λ xs. Sublistᴰ xs sent) q w.part;
        whole = λ few. sym q ∙ w.whole few;
      }
