-- ===== src/Dht/Bucket/Contents.antt =====
-- What a bucket holds after `AddOrUpdate`.
use agent_dns.Dht.Bucket.Extract.{
  extract_found, extract-none, Distinct-remove, add_known, add_new, add_full,
}
use agent_dns.Dht.Bucket.Invariant.{IsValid}
use agent_dns.Dht.Bucket.{
  NodeContact, KBucket, get, get_in, extract, seen_at, oldest, add_or_update, evict,
}
use agent_dns.Dht.NodeId.{NodeId}
use agent_dns.Prelude.{
  All-imp, Option, if_pos, if_neg, Bytes-discrete, ite, ℕ, ◌<◌, ◌≡◌, ◌≢◌, refl, sym, ap, ◌∙◌, List,
  [], ◌∷◌, ◌++◌, none, some, length, All, arith, Option-cases, inl, inr, dec_lt,
}

get_in-remove_ne :
    (id : NodeId) (front : List NodeContact) (x : NodeContact) (back : List NodeContact)
    → x.id ≢ id
    → get_in id (front ++ x ∷ back) ≡ get_in id (front ++ back)
unfolding get_in
get_in-remove_ne id [] x back h = ground arith
get_in-remove_ne id (e ∷ front) x back h = ground (arith, get_in-remove_ne id front x back h)

get_in-append_ne :
    (id : NodeId) (es : List NodeContact) (c : NodeContact)
    → c.id ≢ id
    → get_in id (es ++ c ∷ []) ≡ get_in id es
unfolding get_in
get_in-append_ne id [] c h = ground arith
get_in-append_ne id (e ∷ es) c h = ground (arith, get_in-append_ne id es c h)

get_in-append_self :
    (es : List NodeContact) (c : NodeContact)
    → All (λ e. e.id ≢ c.id) es
    → get_in c.id (es ++ c ∷ []) ≡ some c
unfolding get_in
get_in-append_self [] c h = ground arith
get_in-append_self (e ∷ es) c (n, h) = ground (arith, get_in-append_self es c h)

-- The contact is held as given, seen now, and every other identifier reads as before.
pub record Holds (now : ℕ) (c : NodeContact) (b b' : KBucket) : Type 0 where
  pub reads :
      (id : NodeId) → get b' id ≡ ite (Bytes-discrete c.id id) (some (seen_at now c)) (get b id)
  pub size : b'.k ≡ b.k

get_in-append :
    (id : NodeId) (now : ℕ) (c : NodeContact) (es : List NodeContact) (old : Option NodeContact)
    → All (λ e. e.id ≢ c.id) es
    → (c.id ≢ id → get_in id es ≡ old)
    → get_in id (es ++ seen_at now c ∷ []) ≡ ite (Bytes-discrete c.id id) (some (seen_at now c)) old
get_in-append id now c es old fresh other = elim (Bytes-discrete c.id id) [
  | yes p ↦ rw (if_pos _ p, ← p) (get_in-append_self es (seen_at now c) fresh)
  | no p ↦ rw (if_neg _ p) (get_in-append_ne id es (seen_at now c) p ∙ other p)
]

-- A valid bucket with room for a contact at all either takes the contact in, or is full, does not
-- know the contact, stays as it is and gives its head as the candidate: it never panics.
pub data Added (now : ℕ) (c : NodeContact) (b : KBucket) : Type 0 where
  taken :
      (b' : KBucket) → add_or_update now c b ≡ some (b', none) → Holds now c b b' → Added now c b
  refused :
      (e : NodeContact) (es : List NodeContact)
      → add_or_update now c b ≡ some (b, some e)
      → b.entries ≡ e ∷ es
      → length b.entries ≡ b.k
      → get b c.id ≡ none
      → Added now c b

get_in-none : (id : NodeId) (es : List NodeContact) → All (λ e. e.id ≢ id) es → get_in id es ≡ none
unfolding get_in
get_in-none id [] h = refl
get_in-none id (e ∷ es) (n, h) = ground (arith, get_in-none id es h)

none-get_in : (id : NodeId) (es : List NodeContact) → get_in id es ≡ none → All (λ e. e.id ≢ id) es
unfolding get_in
none-get_in id [] h = tt
none-get_in id (e ∷ es) h = elim (Bytes-discrete e.id id) [
  | yes p ↦ absurd (ground arith)
  | no p ↦ (p, none-get_in id es (ground arith))
]

module _ {P : NodeId → Type 0} {b : KBucket} (v : IsValid P b) (now : ℕ) (c : NodeContact) where
  known-Holds :
      (front back : List NodeContact) (x : NodeContact)
      → b.entries ≡ front ++ x ∷ back
      → x.id ≡ c.id
      → Holds now c b (record b { entries = (front ++ back) ++ seen_at now c ∷ [] })
  unfolding get
  known-Holds front back x whole same = record {
    reads = λ id.
        get_in-append id now c (front ++ back) (get_in id b.entries)
          (rw same at (Distinct-remove front x back (rw whole at v.distinct)).1)
          λ ne.
            sym (get_in-remove_ne id front x back (rw (← same) at ne)) ∙ ap (get_in id) (sym whole);
    size = refl;
  }

  new-Holds :
      extract c.id b.entries ≡ none
      → Holds now c b (record b { entries = b.entries ++ seen_at now c ∷ [] })
  unfolding get
  new-Holds new = record {
    reads = λ id.
        get_in-append id now c b.entries (get_in id b.entries) (extract-none c.id b.entries new)
          (λ ne. refl);
    size = refl;
  }

  full-Added :
      (es : List NodeContact)
      → b.entries ≡ es
      → 0 < length es
      → add_or_update now c b ≡ oldest b es
      → length b.entries ≡ b.k
      → get b c.id ≡ none
      → Added now c b
  full-Added [] eq pos h full absent = elim pos [ ]
  full-Added (e ∷ es) eq pos h full absent = Added.refused e es h eq full absent

  -- The whole of `AddOrUpdate` on a valid bucket of positive capacity: it never panics; it takes
  -- the contact in and leaves the others readable as before, or the bucket is full, does not know
  -- the contact, is left as it is, and its head is the candidate.
  pub add_or_update_lem : 0 < b.k → Added now c b
  unfolding get
  add_or_update_lem k = elim (Option-cases (extract c.id b.entries)) [
    | inl new ↦ elim (dec_lt (length b.entries) b.k) [
      | yes room ↦ Added.taken _ (add_new now c b new room) (new-Holds new)
      | no full ↦
          full-Added b.entries refl (omega arith) (add_full now c b new (omega arith))
            (omega (arith, v.bounded))
            (get_in-none c.id b.entries (extract-none c.id b.entries new))
    ]
    | inr ((x, rest), old) ↦
        let (front, back, whole, without, same) = extract_found c.id b.entries old in
        Added.taken _ (rw without at (add_known now c b old)) (known-Holds front back x whole same)
  ]

tail_reads :
    (id : NodeId) (e : NodeContact) (es : List NodeContact)
    → All (λ x. e.id ≢ x.id) es
    → get_in id es ≡ ite (Bytes-discrete e.id id) none (get_in id (e ∷ es))
unfolding get_in
tail_reads id e es fresh = elim (Bytes-discrete e.id id) [
  | yes p ↦
      rw (if_pos (Bytes-discrete e.id id) p)
        (get_in-none id es (All-imp (λ x ne same. ne (p ∙ sym same)) es fresh))
  | no p ↦ ground arith
]

-- `Evict` on a valid bucket whose head is `e` takes the new contact in, drops `e` and leaves every
-- other identifier as it was.
pub evict_reads :
    {P : NodeId → Type 0} {b : KBucket} (v : IsValid P b) (now : ℕ) (c e : NodeContact)
    (es : List NodeContact)
    → b.entries ≡ e ∷ es
    → get b c.id ≡ none
    → (id : NodeId)
    → get (evict now c b) id
      ≡ ite
          (Bytes-discrete c.id id)
          (some (seen_at now c))
          (ite (Bytes-discrete e.id id) none (get b id))
unfolding get evict
evict_reads {b = b} v now c e es eq new id =
    let (fresh, _) = rw eq at v.distinct in
    let absent = none-get_in c.id (e ∷ es) (rw eq at new) in
    rw eq (
      get_in-append id now c es (ite (Bytes-discrete e.id id) none (get_in id (e ∷ es))) absent.1
        (λ ne. tail_reads id e es fresh))
