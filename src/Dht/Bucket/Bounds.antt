-- ===== src/Dht/Bucket/Bounds.antt =====
-- What every method of a bucket keeps, whatever the contact that it is given: the bound, and which
-- identifiers are in the bucket. That nobody stands twice is not among it.
use agent_dns.Dht.Bucket.Extract.{
  All-remove, extract_found, length-tail, length-tail-le, tail-All, add_known, add_new, add_full,
}
use agent_dns.Dht.Bucket.{
  NodeContact, KBucket, extract, seen_at, oldest, add_or_update, tail, evict, move_to_tail, remove,
}
use agent_dns.Dht.NodeId.{NodeId}
use agent_dns.Prelude.{
  ℕ, suc, ◌≤◌, ◌<◌, ◌≡◌, refl, ◌∙◌, List, [], ◌∷◌, ◌++◌, Option, none, some, length, All,
  All-append, length-append, arith, Option-cases, inl, inr, dec_lt,
}

-- `P` says which identifiers belong in the bucket, `k` is its capacity.
pub record IsBounded (P : NodeId → Type 0) (k : ℕ) (b : KBucket) : Type 0 where
  pub capacity : b.k ≡ k
  pub bounded : length b.entries ≤ k
  pub belong : All (λ e. P e.id) b.entries

module _ {P : NodeId → Type 0} {k : ℕ} {b : KBucket} (v : IsBounded P k b) where
  -- Taking an entry out and putting one at the end.
  moved :
      (now : ℕ) (c : NodeContact) (front back : List NodeContact) (x : NodeContact)
      → b.entries ≡ front ++ x ∷ back
      → P c.id
      → IsBounded P k (record b { entries = (front ++ back) ++ seen_at now c ∷ [] })
  moved now c front back x e p =
      let (px, rest) = All-remove (λ y. P y.id) front x back (rw e at v.belong) in
      let fewer : length b.entries ≡ suc (length (front ++ back)) =
        rw e (omega (arith, length-append {0} front (x ∷ back), length-append {0} front back)) in
      record {
        capacity = v.capacity;
        bounded =
            omega (arith, length-append {0} (front ++ back) (seen_at now c ∷ []), fewer, v.bounded);
        belong = All-append (λ y. P y.id) (front ++ back) (seen_at now c ∷ []) rest (p, tt);
      }

  appended :
      (now : ℕ) (c : NodeContact) (es : List NodeContact)
      → P c.id
      → length es < k
      → All (λ e. P e.id) es
      → IsBounded P k (record b { entries = es ++ seen_at now c ∷ [] })
  appended now c es p room h = record {
    capacity = v.capacity;
    bounded = omega (arith, length-append {0} es (seen_at now c ∷ []));
    belong = All-append (λ y. P y.id) es (seen_at now c ∷ []) h (p, tt);
  }

  oldest-some :
      (es : List NodeContact)
      → 0 < length es
      → (candidate : Option NodeContact) × (oldest b es ≡ some (b, candidate))
  oldest-some [] h = absurd (omega arith)
  oldest-some (e ∷ es) h = (some e, refl)

  -- `AddOrUpdate` does not panic where there is room for a contact at all.
  pub add_or_update-IsBounded :
      (now : ℕ) (c : NodeContact)
      → P c.id
      → 0 < k
      → (b' : KBucket) × (candidate : Option NodeContact) × (add_or_update now c b
          ≡ some (b', candidate))
        × IsBounded P k b'
  add_or_update-IsBounded now c p pos = elim (Option-cases (extract c.id b.entries)) [
    | inl new ↦ elim (dec_lt (length b.entries) b.k) [
      | yes room ↦ (
        _,
        none,
        add_new now c b new room,
        appended now c b.entries p (omega (arith, v.capacity)) v.belong,
      )
      | no full ↦
          let (candidate, e) = oldest-some b.entries (omega (arith, v.capacity)) in
          (b, candidate, add_full now c b new (omega arith) ∙ e, v)
    ]
    | inr ((x, rest), old) ↦
        let (front, back, whole, without, id) = extract_found c.id b.entries old in
        (_, none, rw without at (add_known now c b old), moved now c front back x whole p)
  ]

  pub evict-IsBounded : (now : ℕ) (c : NodeContact) → P c.id → 0 < k → IsBounded P k (evict now c b)
  unfolding evict
  evict-IsBounded now c p pos =
      appended now c (tail b.entries) p
        (elim (dec_lt 0 (length b.entries)) [
          | yes more ↦ omega (arith, length-tail b.entries more, v.bounded)
          | no empty ↦ omega (arith, length-tail-le b.entries)
        ])
        (tail-All (λ y. P y.id) b.entries v.belong)

  pub move_to_tail-IsBounded : (now : ℕ) (id : NodeId) → IsBounded P k (move_to_tail now id b)
  unfolding move_to_tail
  move_to_tail-IsBounded now id = elim (Option-cases (extract id b.entries)) [
    | inl miss ↦ rw (miss, move_to_tail) v
    | inr ((x, rest), hit) ↦
        let (front, back, whole, without, same) = extract_found id b.entries hit in
        rw (hit, move_to_tail, without)
          (moved now x front back x whole
            (All-remove (λ y. P y.id) front x back (rw whole at v.belong)).0)
  ]

  pub remove-IsBounded : (id : NodeId) → IsBounded P k (remove id b)
  unfolding remove
  remove-IsBounded id = elim (Option-cases (extract id b.entries)) [
    | inl miss ↦ rw (miss, remove) v
    | inr ((x, rest), hit) ↦
        let (front, back, whole, without, same) = extract_found id b.entries hit in
        let fewer : length b.entries ≡ suc (length (front ++ back)) =
          rw whole
            (omega (arith, length-append {0} front (x ∷ back), length-append {0} front back)) in
        rw (hit, remove, without)
          (record {
            capacity = v.capacity;
            bounded = omega (arith, v.bounded, fewer);
            belong = (All-remove (λ y. P y.id) front x back (rw whole at v.belong)).1;
          })
  ]
