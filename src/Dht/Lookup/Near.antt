-- ===== src/Dht/Lookup/Near.antt =====
-- What a lookup starts with stays near in its result.
use agent_dns.Dht.Lookup.Batches.{AreRounds, Foreign, collect-Foreign, cut-All}
use agent_dns.Dht.Lookup.Nearest.{dedup_old, dedup_new}
use agent_dns.Dht.Bucket.{NodeContact}
use agent_dns.Dht.Lookup.{Round, is_in, collect, ids_of, to_query, cut, proceed, find_rounds, dedup}
use agent_dns.Dht.NodeId.Value.{value}
use agent_dns.Dht.NodeId.{NodeId, IsNodeId, distance}
use agent_dns.Dht.Routing.Closest.{metric, first-append, closer-metric}
use agent_dns.Dht.Routing.{closer, first}
use agent_dns.Prelude.Sort.{sort, insert, IsSorted, sort-IsSorted}
use agent_dns.Prelude.{
  ℕ, ◌≤◌, ◌<◌, ◌≡◌, ◌⊎◌, sym, ap, ◌∙◌, subst, Bool, true, false, List, [], ◌∷◌, ◌++◌, Bool-cases,
  inl, inr, min, length, All, All-append, All-imp, arith, Bytes-discrete,
}

-- Some contact of the list is at least as near to the target as `c`.
abbrev pub IsNear : NodeId → NodeContact → List NodeContact → Type 0
IsNear target c [] = ⊥
IsNear target c (y ∷ ys) = (metric target y ≤ metric target c) ⊎ IsNear target c ys

module _ (target : NodeId) (c : NodeContact) where
  pub IsNear-append : (xs ys : List NodeContact) → IsNear target c xs → IsNear target c (xs ++ ys)
  IsNear-append [] ys h = absurd h
  IsNear-append (x ∷ xs) ys (inl h) = inl h
  IsNear-append (x ∷ xs) ys (inr h) = inr (IsNear-append xs ys h)

  insert-IsNear_self :
      (lt : NodeContact → NodeContact → Bool) (x : NodeContact) (xs : List NodeContact)
      → metric target x ≤ metric target c
      → IsNear target c (insert lt x xs)
  unfolding insert
  insert-IsNear_self lt x [] h = inl h
  insert-IsNear_self lt x (y ∷ ys) h = elim (Bool-cases (lt y x)) [
    | inl e ↦ rw e (inr (insert-IsNear_self lt x ys h))
    | inr e ↦ rw e (inl h)
  ]

  insert-IsNear :
      (lt : NodeContact → NodeContact → Bool) (x : NodeContact) (xs : List NodeContact)
      → IsNear target c xs
      → IsNear target c (insert lt x xs)
  unfolding insert
  insert-IsNear lt x [] h = absurd h
  insert-IsNear lt x (y ∷ ys) h = elim (Bool-cases (lt y x)) [
    | inl e ↦ rw e (elim h [ inl p ↦ inl p | inr p ↦ inr (insert-IsNear lt x ys p) ])
    | inr e ↦ rw e (inr h)
  ]

  sort-IsNear :
      (lt : NodeContact → NodeContact → Bool) (xs : List NodeContact)
      → IsNear target c xs
      → IsNear target c (sort lt xs)
  unfolding sort
  sort-IsNear lt [] h = absurd h
  sort-IsNear lt (x ∷ xs) (inl h) = insert-IsNear_self lt x (sort lt xs) h
  sort-IsNear lt (x ∷ xs) (inr h) = insert-IsNear lt x (sort lt xs) (sort-IsNear lt xs h)

  head-IsNear :
      (x : NodeContact) (xs : List NodeContact)
      → All (λ y. metric target x ≤ metric target y) xs
      → IsNear target c (x ∷ xs)
      → metric target x ≤ metric target c
  head-IsNear x [] h (inl p) = p
  head-IsNear x [] h (inr p) = absurd p
  head-IsNear x (y ∷ ys) (q, h) (inl p) = p
  head-IsNear x (y ∷ ys) (q, h) (inr (inl p)) = omega arith
  head-IsNear x (y ∷ ys) (q, h) (inr (inr p)) = head-IsNear x ys h (inr p)

  front-IsNear :
      (k : ℕ) (front rest : List NodeContact)
      → 0 < k
      → length front ≡ min k (length (front ++ rest))
      → IsSorted (metric target) (front ++ rest)
      → IsNear target c (front ++ rest)
      → IsNear target c front
  front-IsNear k [] [] pos len s h = h
  front-IsNear k [] (y ∷ rest) pos len s h = absurd (omega arith)
  front-IsNear k (x ∷ front) rest pos len (s, t) h = inl (head-IsNear x (front ++ rest) s h)

  -- Where a result has a contact as near, so has its cut.
  pub cut-IsNear :
      (k : ℕ) (xs : List NodeContact)
      → IsNodeId target
      → 0 < k
      → All (λ x. IsNodeId x.id) xs
      → IsNear target c xs
      → IsNear target c (cut target k xs)
  cut-IsNear k xs t pos h n =
      let sorted = sort (closer target) xs in
      let (rest, whole, len) = first-append k sorted in
      front-IsNear k (first k sorted) rest pos (len ∙ ap (λ l. min k (length l)) (sym whole))
        (rw whole (
          sort-IsSorted (closer target) (metric target) (λ x. IsNodeId x.id)
            (closer-metric target t) xs h))
        (rw whole (sort-IsNear (closer target) xs n))

  -- One of the identifiers is at least as near to the target.
  IsSeen : List NodeId → Type 0
  IsSeen [] = ⊥
  IsSeen (j ∷ ids) = (value (distance j target) ≤ metric target c) ⊎ IsSeen ids

  is_in-IsSeen :
      (n : NodeContact) (seen : List NodeId)
      → is_in n.id seen ≡ true
      → metric target n ≤ metric target c
      → IsSeen seen
  unfolding is_in IsSeen
  is_in-IsSeen n [] h p = absurd (ground arith)
  is_in-IsSeen n (j ∷ seen) h p = elim (Bytes-discrete j n.id) [
    | yes e ↦ inl (subst (λ i. value (distance i target) ≤ metric target c) (sym e) p)
    | no ne ↦ inr (is_in-IsSeen n seen (ground arith) p)
  ]

  dedup_either :
      (seen : List NodeId) (xs : List NodeContact)
      → IsNear target c xs
      → IsNear target c (dedup seen xs) ⊎ IsSeen seen
  unfolding IsSeen
  dedup_either seen [] h = absurd h
  dedup_either seen (x ∷ xs) (inl p) = elim (Bool-cases (is_in x.id seen)) [
    | inl old ↦ inr (is_in-IsSeen x seen old p)
    | inr new ↦ rw (dedup_new seen x xs new) (inl (inl p))
  ]
  dedup_either seen (x ∷ xs) (inr p) = elim (Bool-cases (is_in x.id seen)) [
    | inl old ↦ rw (dedup_old seen x xs old) (dedup_either seen xs p)
    | inr new ↦ rw (dedup_new seen x xs new) (elim (dedup_either (x.id ∷ seen) xs p) [
      | inl q ↦ inl (inr q)
      | inr (inl q) ↦ inl (inl q)
      | inr (inr q) ↦ inr q
    ])
  ]

  pub dedup-IsNear : (xs : List NodeContact) → IsNear target c xs → IsNear target c (dedup [] xs)
  unfolding IsSeen
  dedup-IsNear xs h = elim (dedup_either [] xs h) [ inl q ↦ q | inr q ↦ absurd q ]

  proceed-IsNear :
      (asked new : List NodeContact) (complete : Bool) (result : List NodeContact)
      (rest : List NodeContact × List (List NodeContact))
      → IsNear target c result
      → IsNear target c rest.0
      → IsNear target c (proceed asked new complete result rest).0
  proceed-IsNear [] new complete result rest n r = n
  proceed-IsNear (x ∷ asked) new false result rest n r = IsNear-append result new n
  proceed-IsNear (x ∷ asked) [] true result rest n r = n
  proceed-IsNear (x ∷ asked) (y ∷ new) true result rest n r = r

  -- What the loop starts with is never lost to contacts that are farther away.
  pub find_rounds-IsNear :
      (self : NodeId) (alpha k : ℕ) (rounds : List Round) (queried : List NodeId)
      (result : List NodeContact)
      → IsNodeId target
      → 0 < k
      → AreRounds rounds
      → All (Foreign self) result
      → IsNear target c result
      → IsNear target c (find_rounds self target alpha k rounds queried result).0
  unfolding find_rounds
  find_rounds-IsNear self alpha k [] queried result t pos h f n = n
  find_rounds-IsNear self alpha k (r ∷ rounds) queried result t pos (p, h) f n =
      let asked = to_query alpha queried result in
      let queried' = ids_of asked ++ queried in
      let new = collect self queried' r.received in
      let both =
        All-append (Foreign self) result new f (collect-Foreign self queried' r.received p) in
      proceed-IsNear asked new r.complete result _ n (
        find_rounds-IsNear self alpha k rounds queried' (cut target k (result ++ new)) t pos h
          (cut-All (Foreign self) target k (result ++ new) both)
          (cut-IsNear k (result ++ new) t pos (All-imp (λ x q. q.0) (result ++ new) both)
            (IsNear-append result new n)))

-- Each contact of a list is as near as itself.
pub All-IsNear : (target : NodeId) (xs : List NodeContact) → All (λ c. IsNear target c xs) xs
All-IsNear target [] = tt
All-IsNear target (x ∷ xs) = (inl (omega arith), All-imp (λ c n. inr n) xs (All-IsNear target xs))
