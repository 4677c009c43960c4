-- ===== src/Dht/Bucket/Extract.antt =====
-- Taking a contact out of a bucket's list, putting one at its end, and the branches of
-- `AddOrUpdate`.
use agent_dns.Dht.Bucket.{NodeContact, KBucket, extract, seen_at, oldest, add_or_update, tail}
use agent_dns.Dht.NodeId.{NodeId}
use agent_dns.Prelude.{
  ℕ, suc, ◌≤◌, ◌<◌, ◌≡◌, ◌≢◌, refl, sym, List, [], ◌∷◌, ◌++◌, none, some, Bytes-discrete, length,
  All, All-append, All-imp, arith, Option-cases, inl, inr,
}

abbrev pub Distinct : List NodeContact → Type 0
Distinct [] = Unit
Distinct (e ∷ es) = All (λ x. e.id ≢ x.id) es × Distinct es

-- What `extract` takes out: the first entry with the identifier.
pub extract_found :
    (id : NodeId) (es : List NodeContact) {x : NodeContact} {rest : List NodeContact}
    → extract id es ≡ some (x, rest)
    → (front back : List NodeContact) × (es ≡ front ++ x ∷ back)
      × (rest ≡ front ++ back)
      × (x.id ≡ id)
unfolding extract
extract_found id [] h = absurd (cc)
extract_found id (e ∷ es) {x} {rest} h = elim (Bytes-discrete e.id id) [
  | yes p ↦ ([], es, ground arith, ground arith, ground arith)
  | no p ↦ elim (Option-cases (extract id es)) [
    | inl miss ↦ absurd (ground arith)
    | inr ((y, left), hit) ↦
        let (front, back, whole, without, same) = extract_found id es hit in
        (e ∷ front, back, ground arith, ground arith, ground arith)
  ]
]

pub All-remove :
    (P : NodeContact → Type 0) (front : List NodeContact) (x : NodeContact)
    (back : List NodeContact)
    → All P (front ++ x ∷ back)
    → P x × All P (front ++ back)
All-remove P [] x back (p, h) = (p, h)
All-remove P (e ∷ front) x back (q, h) = let (p, r) = All-remove P front x back h in (p, (q, r))

pub Distinct-remove :
    (front : List NodeContact) (x : NodeContact) (back : List NodeContact)
    → Distinct (front ++ x ∷ back)
    → Distinct (front ++ back) × All (λ e. e.id ≢ x.id) (front ++ back)
Distinct-remove [] x back (n, d) = (d, All-imp (λ e ne p. ne (sym p)) back n)
Distinct-remove (e ∷ front) x back (n, d) =
    let (ne, rest) = All-remove (λ y. e.id ≢ y.id) front x back n in
    let (d', fresh) = Distinct-remove front x back d in ((rest, d'), (ne, fresh))

pub extract-none :
    (id : NodeId) (es : List NodeContact) → extract id es ≡ none → All (λ e. e.id ≢ id) es
unfolding extract
extract-none id [] h = tt
extract-none id (e ∷ es) h = elim (Bytes-discrete e.id id) [
  | yes p ↦ absurd (ground arith)
  | no p ↦ (p, extract-none id es (ground arith))
]

pub Distinct-snoc :
    (es : List NodeContact) (c : NodeContact)
    → Distinct es
    → All (λ e. e.id ≢ c.id) es
    → Distinct (es ++ c ∷ [])
Distinct-snoc [] c d h = (tt, tt)
Distinct-snoc (e ∷ es) c (n, d) (p, h) =
    (All-append _ es (c ∷ []) n (p, tt), Distinct-snoc es c d h)

pub length-tail : (es : List NodeContact) → 0 < length es → suc (length (tail es)) ≡ length es
length-tail [] h = elim h [ ]
length-tail (e ∷ es) h = refl

pub length-tail-le : (es : List NodeContact) → length (tail es) ≤ length es
length-tail-le [] = omega arith
length-tail-le (e ∷ es) = omega arith

pub tail-All : (Q : NodeContact → Type 0) (es : List NodeContact) → All Q es → All Q (tail es)
tail-All Q [] h = tt
tail-All Q (e ∷ es) (q, h) = h

pub tail-Distinct : (es : List NodeContact) → Distinct es → Distinct (tail es)
tail-Distinct [] h = tt
tail-Distinct (e ∷ es) (q, h) = h

-- The branches of `AddOrUpdate`.
module _ (now : ℕ) (c : NodeContact) (b : KBucket) where
  pub add_known :
      {x : NodeContact} {rest : List NodeContact}
      → extract c.id b.entries ≡ some (x, rest)
      → add_or_update now c b ≡ some (record b { entries = rest ++ seen_at now c ∷ [] }, none)
  unfolding add_or_update
  add_known h = ground arith

  pub add_new :
      extract c.id b.entries ≡ none
      → length b.entries < b.k
      → add_or_update now c b ≡ some (record b { entries = b.entries ++ seen_at now c ∷ [] }, none)
  unfolding add_or_update
  add_new h k = ground arith

  pub add_full :
      extract c.id b.entries ≡ none
      → b.k ≤ length b.entries
      → add_or_update now c b ≡ oldest b b.entries
  unfolding add_or_update
  add_full h k = ground arith
