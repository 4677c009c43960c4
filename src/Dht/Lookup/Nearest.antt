-- ===== src/Dht/Lookup/Nearest.antt =====
-- The nearest contacts of a lookup, after the removal of duplicates.
use agent_dns.Dht.Bucket.Extract.{Distinct}
use agent_dns.Dht.Bucket.{NodeContact}
use agent_dns.Dht.Lookup.{is_in, cut, dedup}
use agent_dns.Dht.NodeId.{NodeId, IsNodeId}
use agent_dns.Dht.Routing.Closest.{metric, first-append, IsSorted-append, closer-metric}
use agent_dns.Dht.Routing.{closer, first}
use agent_dns.Prelude.Sort.{sort, sort-All, insert-All, insert, IsSorted, sort-IsSorted}
use agent_dns.Prelude.{
  ℕ, ◌≤◌, ◌≡◌, ◌≢◌, refl, sym, ◌∙◌, Bool, true, false, List, [], ◌∷◌, ◌++◌, Bytes-discrete, if_pos,
  Bool-cases, inl, inr, length, All, All-split, All-imp, arith,
}

pub is_in_head : (self id : NodeId) (ids : List NodeId) → is_in id (self ∷ ids) ≡ false → id ≢ self
unfolding is_in
is_in_head self id ids h = λ e.
    let no = sym (if_pos (Bytes-discrete self id) (sym e) true (is_in id ids)) ∙ h in
    absurd (ground arith)

pub is_in_tail :
    (self id : NodeId) (ids : List NodeId) → is_in id (self ∷ ids) ≡ false → is_in id ids ≡ false
unfolding is_in
is_in_tail self id ids h = ground arith

pub dedup_old :
    (seen : List NodeId) (n : NodeContact) (ns : List NodeContact)
    → is_in n.id seen ≡ true
    → dedup seen (n ∷ ns) ≡ dedup seen ns
unfolding dedup
dedup_old seen n ns h = rw (h, dedup) refl

pub dedup_new :
    (seen : List NodeId) (n : NodeContact) (ns : List NodeContact)
    → is_in n.id seen ≡ false
    → dedup seen (n ∷ ns) ≡ n ∷ dedup (n.id ∷ seen) ns
unfolding dedup
dedup_new seen n ns h = rw (h, dedup) refl

pub dedup-All {ℓ} :
    (Q : NodeContact → Type ℓ) (seen : List NodeId) (ns : List NodeContact)
    → All Q ns
    → All Q (dedup seen ns)
unfolding dedup
dedup-All Q seen [] h = tt
dedup-All Q seen (n ∷ ns) (q, h) = elim (Bool-cases (is_in n.id seen)) [
  | inl old ↦ rw (dedup_old seen n ns old) (dedup-All Q seen ns h)
  | inr new ↦ rw (dedup_new seen n ns new) (q, dedup-All Q (n.id ∷ seen) ns h)
]

pub dedup_unseen :
    (seen : List NodeId) (ns : List NodeContact)
    → All (λ n. is_in n.id seen ≡ false) (dedup seen ns)
unfolding dedup
dedup_unseen seen [] = tt
dedup_unseen seen (n ∷ ns) = elim (Bool-cases (is_in n.id seen)) [
  | inl old ↦ rw (dedup_old seen n ns old) (dedup_unseen seen ns)
  | inr new ↦ rw (dedup_new seen n ns new) (
    new,
    All-imp (λ x h. is_in_tail n.id x.id seen h) (dedup (n.id ∷ seen) ns)
        (dedup_unseen (n.id ∷ seen) ns),
  )
]

pub dedup-Distinct : (seen : List NodeId) (ns : List NodeContact) → Distinct (dedup seen ns)
unfolding dedup
dedup-Distinct seen [] = tt
dedup-Distinct seen (n ∷ ns) = elim (Bool-cases (is_in n.id seen)) [
  | inl old ↦ rw (dedup_old seen n ns old) (dedup-Distinct seen ns)
  | inr new ↦ rw (dedup_new seen n ns new) (
    All-imp (λ x h e. is_in_head n.id x.id seen h (sym e)) (dedup (n.id ∷ seen) ns)
        (dedup_unseen (n.id ∷ seen) ns),
    dedup-Distinct (n.id ∷ seen) ns,
  )
]

pub insert-Distinct :
    (lt : NodeContact → NodeContact → Bool) (x : NodeContact) (xs : List NodeContact)
    → All (λ y. x.id ≢ y.id) xs
    → Distinct xs
    → Distinct (insert lt x xs)
unfolding insert
insert-Distinct lt x [] h d = (tt, tt)
insert-Distinct lt x (y ∷ ys) (n, h) (m, d) = elim (Bool-cases (lt y x)) [
  | inl less ↦
      rw less
        (insert-All lt (λ z. y.id ≢ z.id) x ys (λ e. n (sym e)) m, insert-Distinct lt x ys h d)
  | inr more ↦ rw more ((n, h), (m, d))
]

pub sort-Distinct :
    (lt : NodeContact → NodeContact → Bool) (xs : List NodeContact)
    → Distinct xs
    → Distinct (sort lt xs)
unfolding sort
sort-Distinct lt [] d = tt
sort-Distinct lt (x ∷ xs) (n, d) =
    insert-Distinct lt x (sort lt xs) (sort-All lt (λ y. x.id ≢ y.id) xs n) (sort-Distinct lt xs d)

pub front-Distinct : (xs ys : List NodeContact) → Distinct (xs ++ ys) → Distinct xs
front-Distinct [] ys d = tt
front-Distinct (x ∷ xs) ys (n, d) =
    ((All-split (λ y. x.id ≢ y.id) xs ys n).0, front-Distinct xs ys d)

-- The nearest `k` of contacts without repetition.
pub cut_lem :
    (target : NodeId) (k : ℕ) (xs : List NodeContact)
    → IsNodeId target
    → All (λ c. IsNodeId c.id) xs
    → Distinct xs
    → IsSorted (metric target) (cut target k xs)
      × Distinct (cut target k xs)
      × (length (cut target k xs) ≤ k)
cut_lem target k xs t h d =
    let sorted = sort (closer target) xs in
    let (rest, whole, len) = first-append k sorted in
    let ordered : IsSorted (metric target) (first k sorted ++ rest) = rw whole (
      sort-IsSorted (closer target) (metric target) (λ c. IsNodeId c.id) (closer-metric target t) xs
        h) in
    let apart : Distinct (first k sorted ++ rest) = rw whole (sort-Distinct (closer target) xs d) in
    (
      (IsSorted-append (metric target) (first k sorted) rest ordered).0,
      front-Distinct (first k sorted) rest apart,
      omega (arith, len),
    )
