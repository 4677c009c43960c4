-- ===== src/Dht/Bucket/Recency.antt =====
-- The order of a bucket: the entries stand in the order in which they were last seen.
use agent_dns.Dht.Bucket.Extract.{All-remove, extract_found, add_known, add_new, add_full}
use agent_dns.Dht.Bucket.{
  NodeContact, KBucket, extract, seen_at, oldest, add_or_update, tail, evict, move_to_tail,
}
use agent_dns.Dht.NodeId.{NodeId}
use agent_dns.Prelude.{
  ℕ, ◌≤◌, ◌≡◌, sym, ◌∙◌, subst, List, [], ◌∷◌, ◌++◌, Option, some, length, All, All-append, arith,
  Option-cases, inl, inr, dec_lt,
}

-- No entry was seen later than one behind it, and none after `now`.
abbrev pub Ordered : ℕ → List NodeContact → Type 0
Ordered now [] = Unit
Ordered now (e ∷ es) =
    All (λ x. e.last_seen ≤ x.last_seen) es × (e.last_seen ≤ now) × Ordered now es

pub Ordered-later :
    (now later : ℕ) (es : List NodeContact) → now ≤ later → Ordered now es → Ordered later es
Ordered-later now later [] h o = tt
Ordered-later now later (e ∷ es) h (first, seen, o) =
    (first, omega arith, Ordered-later now later es h o)

Ordered-snoc :
    (now : ℕ) (es : List NodeContact) (c : NodeContact)
    → Ordered now es
    → Ordered now (es ++ seen_at now c ∷ [])
Ordered-snoc now [] c o = (tt, omega arith, tt)
Ordered-snoc now (e ∷ es) c (first, seen, o) =
    (All-append _ es (seen_at now c ∷ []) first (seen, tt), seen, Ordered-snoc now es c o)

Ordered-remove :
    (now : ℕ) (front : List NodeContact) (x : NodeContact) (back : List NodeContact)
    → Ordered now (front ++ x ∷ back)
    → Ordered now (front ++ back)
Ordered-remove now [] x back (first, seen, o) = o
Ordered-remove now (e ∷ front) x back (first, seen, o) = (
  (All-remove (λ y. e.last_seen ≤ y.last_seen) front x back first).1,
  seen,
  Ordered-remove now front x back o,
)

Ordered-tail : (now : ℕ) (es : List NodeContact) → Ordered now es → Ordered now (tail es)
Ordered-tail now [] o = tt
Ordered-tail now (e ∷ es) (first, seen, o) = o

-- The head of an ordered list was seen no later than any entry.
pub Ordered-head :
    (now : ℕ) (e : NodeContact) (es : List NodeContact)
    → Ordered now (e ∷ es)
    → All (λ x. e.last_seen ≤ x.last_seen) (e ∷ es)
Ordered-head now e es (first, seen, o) = (omega arith, first)

module _ (b : KBucket) (now : ℕ) (o : Ordered now b.entries) where
  oldest-Ordered :
      (es : List NodeContact) {b' : KBucket} {candidate : Option NodeContact}
      → oldest b es ≡ some (b', candidate)
      → Ordered now b'.entries
  oldest-Ordered [] h = absurd (cc)
  oldest-Ordered (e ∷ es) {b'} h =
      let same : b ≡ b' = cc in subst (λ (x : KBucket). Ordered now x.entries) same o

  pub add_or_update-Ordered :
      (c : NodeContact) {b' : KBucket} {candidate : Option NodeContact}
      → add_or_update now c b ≡ some (b', candidate)
      → Ordered now b'.entries
  add_or_update-Ordered c {b'} h = elim (Option-cases (extract c.id b.entries)) [
    | inl new ↦ elim (dec_lt (length b.entries) b.k) [
      | yes room ↦
          let same : record b { entries = b.entries ++ seen_at now c ∷ [] } ≡ b' =
            cc (add_new now c b new room) in
          subst (λ (x : KBucket). Ordered now x.entries) same (Ordered-snoc now b.entries c o)
      | no full ↦ oldest-Ordered b.entries (sym (add_full now c b new (omega arith)) ∙ h)
    ]
    | inr ((x, rest), old) ↦
        let (front, back, whole, without, id) = extract_found c.id b.entries old in
        let same : record b { entries = (front ++ back) ++ seen_at now c ∷ [] } ≡ b' =
          cc (add_known now c b old) in
        subst (λ (x : KBucket). Ordered now x.entries) same
          (Ordered-snoc now (front ++ back) c (Ordered-remove now front x back (rw whole at o)))
  ]

  pub evict-Ordered : (c : NodeContact) → Ordered now (evict now c b).entries
  unfolding evict
  evict-Ordered c = Ordered-snoc now (tail b.entries) c (Ordered-tail now b.entries o)

  pub move_to_tail-Ordered : (id : NodeId) → Ordered now (move_to_tail now id b).entries
  unfolding move_to_tail
  move_to_tail-Ordered id = elim (Option-cases (extract id b.entries)) [
    | inl miss ↦ rw (miss, move_to_tail) o
    | inr ((x, rest), hit) ↦
        let (front, back, whole, without, same) = extract_found id b.entries hit in
        rw (hit, move_to_tail, without)
          (Ordered-snoc now (front ++ back) x (Ordered-remove now front x back (rw whole at o)))
  ]
