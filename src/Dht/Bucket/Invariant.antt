-- ===== src/Dht/Bucket/Invariant.antt =====
-- A bucket never holds more than `k` contacts nor one identifier twice, and its contacts stay
-- those that belong in it.
use agent_dns.Dht.Bucket.{
  NodeContact, KBucket, extract, seen_at, oldest, add_or_update, tail, evict, move_to_tail, remove,
}
use agent_dns.Dht.Bucket.Extract.{
  Distinct, extract_found, extract-none, All-remove, Distinct-remove, Distinct-snoc, length-tail,
  length-tail-le, tail-All, tail-Distinct, add_known, add_new, add_full,
}
use agent_dns.Dht.NodeId.{NodeId}
use agent_dns.Prelude.{
  ℕ, suc, ◌≤◌, ◌<◌, ◌≡◌, ◌≢◌, refl, sym, List, [], ◌∷◌, ◌++◌, Option, none, some, length, All,
  All-append, length-append, arith, Option-cases, inl, inr, dec_lt, ◌∙◌, subst,
}

-- `P` says which identifiers belong in the bucket.
pub record IsValid (P : NodeId → Type 0) (b : KBucket) : Type 0 where
  pub bounded : length b.entries ≤ b.k
  pub distinct : Distinct b.entries
  pub belong : All (λ e. P e.id) b.entries

module _ {P : NodeId → Type 0} {b : KBucket} (v : IsValid P b) where
  -- Taking an entry out and putting one with its identifier at the end.
  renewed :
      (now : ℕ) (c : NodeContact) (front back : List NodeContact) (x : NodeContact)
      → b.entries ≡ front ++ x ∷ back
      → x.id ≡ c.id
      → IsValid P (record b { entries = (front ++ back) ++ seen_at now c ∷ [] })
  renewed now c front back x e same =
      let (d, fresh) = Distinct-remove front x back (rw e at v.distinct) in
      let (px, rest) = All-remove (λ y. P y.id) front x back (rw e at v.belong) in
      let fewer : length b.entries ≡ suc (length (front ++ back)) =
        rw e (omega (arith, length-append {0} front (x ∷ back), length-append {0} front back)) in
      record {
        bounded =
            omega (arith, length-append {0} (front ++ back) (seen_at now c ∷ []), fewer, v.bounded);
        distinct = Distinct-snoc (front ++ back) (seen_at now c) d (rw same at fresh);
        belong =
            All-append (λ y. P y.id) (front ++ back) (seen_at now c ∷ []) rest (rw same at px, tt);
      }

  added :
      (now : ℕ) (c : NodeContact)
      → P c.id
      → length b.entries < b.k
      → All (λ e. e.id ≢ c.id) b.entries
      → IsValid P (record b { entries = b.entries ++ seen_at now c ∷ [] })
  added now c p room fresh = record {
    bounded = omega (arith, length-append {0} b.entries (seen_at now c ∷ []));
    distinct = Distinct-snoc b.entries (seen_at now c) v.distinct fresh;
    belong = All-append (λ y. P y.id) b.entries (seen_at now c ∷ []) v.belong (p, tt);
  }

  oldest-IsValid :
      (es : List NodeContact) {b' : KBucket} {candidate : Option NodeContact}
      → oldest b es ≡ some (b', candidate)
      → IsValid P b'
  oldest-IsValid [] h = absurd (cc)
  oldest-IsValid (e ∷ es) {b'} h = let same : b ≡ b' = cc in subst (IsValid P) same v

  pub add_or_update-IsValid :
      (now : ℕ) (c : NodeContact) {b' : KBucket} {candidate : Option NodeContact}
      → P c.id
      → add_or_update now c b ≡ some (b', candidate)
      → IsValid P b'
  add_or_update-IsValid now c {b'} p h = elim (Option-cases (extract c.id b.entries)) [
    | inl new ↦ elim (dec_lt (length b.entries) b.k) [
      | yes room ↦
          let same : record b { entries = b.entries ++ seen_at now c ∷ [] } ≡ b' =
            cc (add_new now c b new room) in
          subst (IsValid P) same (added now c p room (extract-none c.id b.entries new))
      | no full ↦ oldest-IsValid b.entries (sym (add_full now c b new (omega arith)) ∙ h)
    ]
    | inr ((x, rest), old) ↦
        let (front, back, whole, without, id) = extract_found c.id b.entries old in
        let same : record b { entries = (front ++ back) ++ seen_at now c ∷ [] } ≡ b' =
          cc (add_known now c b old) in
        subst (IsValid P) same (renewed now c front back x whole id)
  ]

  pub move_to_tail-IsValid : (now : ℕ) (id : NodeId) → IsValid P (move_to_tail now id b)
  unfolding move_to_tail
  move_to_tail-IsValid now id = elim (Option-cases (extract id b.entries)) [
    | inl miss ↦ rw (miss, move_to_tail) v
    | inr ((x, rest), hit) ↦
        let (front, back, whole, without, same) = extract_found id b.entries hit in
        rw (hit, move_to_tail, without) (renewed now x front back x whole refl)
  ]

  pub remove-IsValid : (id : NodeId) → IsValid P (remove id b)
  unfolding remove
  remove-IsValid id = elim (Option-cases (extract id b.entries)) [
    | inl miss ↦ rw (miss, remove) v
    | inr ((x, rest), hit) ↦
        let (front, back, whole, without, same) = extract_found id b.entries hit in
        rw (hit, remove, without)
          (record {
            bounded =
                let fewer : length b.entries ≡ suc (length (front ++ back)) = rw whole (
                  omega
                    (arith, length-append {0} front (x ∷ back), length-append {0} front back)) in
                omega (arith, v.bounded);
            distinct = (Distinct-remove front x back (rw whole at v.distinct)).0;
            belong = (All-remove (λ y. P y.id) front x back (rw whole at v.belong)).1;
          })
  ]

  -- The head makes room for a contact that is new to the bucket.
  pub evict-IsValid :
      (now : ℕ) (c : NodeContact)
      → P c.id
      → 0 < b.k
      → extract c.id b.entries ≡ none
      → IsValid P (evict now c b)
  unfolding evict
  evict-IsValid now c p k new = record {
    bounded = elim (dec_lt 0 (length b.entries)) [
      | yes some_left ↦ omega (
        arith,
        length-append {0} (tail b.entries) (seen_at now c ∷ []),
        length-tail b.entries some_left,
        v.bounded,
      )
      | no empty ↦
          omega (
            arith,
            length-append {0} (tail b.entries) (seen_at now c ∷ []),
            length-tail-le b.entries,
          )
    ];
    distinct =
        Distinct-snoc (tail b.entries) (seen_at now c) (tail-Distinct b.entries v.distinct)
          (tail-All (λ e. e.id ≢ c.id) b.entries (extract-none c.id b.entries new));
    belong =
        All-append (λ y. P y.id) (tail b.entries) (seen_at now c ∷ [])
          (tail-All (λ y. P y.id) b.entries v.belong) (p, tt);
  }
