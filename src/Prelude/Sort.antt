-- ===== src/Prelude/Sort.antt =====
-- `sort.Slice(l, less)` as insertion sort, for a `less` that compares natural-number keys on the
-- elements that satisfy `P`. Elements with equal keys keep their order; where the keys are
-- distinct, every sorting algorithm gives this list.
use Prim.Native.Nat.{ℕ, suc, ◌≤◌}
use agent_dns.Prelude.Lists.{All, length, All-imp}
use agent_dns.Prelude.Tests.{ltb, if◌then◌else◌, Bool-cases}
use mathlib.Core.Bool.{Bool}
use mathlib.Core.List.Perm
use mathlib.Core.List.{List, [], ◌∷◌, Perm}
use mathlib.Core.Logic.{inl, inr}
use mathlib.Core.Path.{◌≡◌, refl}
use native.Mathlib.Omega.{arith}

module _ {ℓ} {A : Type ℓ} (lt : A → A → Bool) where
  unfoldable pub insert : A → List A → List A
  insert x [] = x ∷ []
  insert x (y ∷ ys) = if lt y x then y ∷ insert x ys else x ∷ y ∷ ys

  unfoldable pub sort : List A → List A
  unfolding insert
  sort [] = []
  sort (x ∷ xs) = insert x (sort xs)

  insert-perm : (x : A) (xs : List A) → Perm (insert x xs) (x ∷ xs)
  unfolding insert
  insert-perm x [] = Perm.refl _
  insert-perm x (y ∷ ys) = elim (Bool-cases (lt y x)) [
    | inl h ↦ rw h (Perm.trans (Perm.cons y (insert-perm x ys)) (Perm.swap x y ys))
    | inr h ↦ rw h (Perm.refl _)
  ]

  pub sort-perm : (xs : List A) → Perm (sort xs) xs
  unfolding sort
  sort-perm [] = Perm.refl []
  sort-perm (x ∷ xs) = Perm.trans (insert-perm x (sort xs)) (Perm.cons x (sort-perm xs))

  length-insert : (x : A) (xs : List A) → length (insert x xs) ≡ suc (length xs)
  unfolding insert
  length-insert x [] = refl
  length-insert x (y ∷ ys) = ground (arith, length-insert x ys)

  pub length-sort : (xs : List A) → length (sort xs) ≡ length xs
  unfolding sort
  length-sort [] = refl
  length-sort (x ∷ xs) = omega (arith, length-insert x (sort xs), length-sort xs)

  module _ {κ} (Q : A → Type κ) where
    pub insert-All : (x : A) (xs : List A) → Q x → All Q xs → All Q (insert x xs)
    unfolding insert
    insert-All x [] q h = (q, tt)
    insert-All x (y ∷ ys) q (p, h) = elim (Bool-cases (lt y x)) [
      | inl e ↦ rw e (p, insert-All x ys q h)
      | inr e ↦ rw e (q, (p, h))
    ]

    pub sort-All : (xs : List A) → All Q xs → All Q (sort xs)
    unfolding sort
    sort-All [] h = tt
    sort-All (x ∷ xs) (q, h) = insert-All x (sort xs) q (sort-All xs h)

module _ {ℓ} {A : Type ℓ} (key : A → ℕ) where
  -- No element has a smaller key than one before it.
  abbrev pub IsSorted : List A → Type 0
  IsSorted [] = Unit
  IsSorted (x ∷ xs) = All (λ y. key x ≤ key y) xs × IsSorted xs

module _ {ℓ κ} {A : Type ℓ} (lt : A → A → Bool) (key : A → ℕ) (P : A → Type κ)
    (agree : (x y : A) → P x → P y → lt x y ≡ ltb (key x) (key y)) where
  insert-IsSorted :
      (x : A) (xs : List A) → P x → All P xs → IsSorted key xs → IsSorted key (insert lt x xs)
  unfolding insert
  insert-IsSorted x [] p h s = (tt, tt)
  insert-IsSorted x (y ∷ ys) p (q, h) (s, r) = elim (Bool-cases (lt y x)) [
    | inl e ↦
        let before : key y ≤ key x = ground (arith, agree y x q p) in
        rw e (insert-All lt (λ z. key y ≤ key z) x ys before s, insert-IsSorted x ys p h r)
    | inr e ↦
        let before : key x ≤ key y = ground (arith, agree y x q p) in
        rw e ((before, All-imp (λ z k. omega arith) ys s), (s, r))
  ]

  pub sort-IsSorted : (xs : List A) → All P xs → IsSorted key (sort lt xs)
  unfolding sort
  sort-IsSorted [] h = tt
  sort-IsSorted (x ∷ xs) (p, h) =
      insert-IsSorted x (sort lt xs) p (sort-All lt P xs h) (sort-IsSorted xs h)
