-- ===== src/Prelude/Assoc.antt =====
-- Go maps as association lists over keys with decidable equality. The laws give each read after
-- each write in one equation.
pub mod Totals
use Prim.Native.Nat.{suc, ◌≤◌}
use agent_dns.Prelude.Lists.{length, All}
use mathlib.Core.List.{List, [], ◌∷◌}
use mathlib.Core.Logic.{ite, if_pos, if_neg, ◌⊎◌, inl, inr, ◌≢◌}
use mathlib.Core.Option.{Option, none, some, some-injective, none-ne-some}
use mathlib.Core.Path.{◌≡◌, refl, sym, ◌∙◌}
use native.Mathlib.Omega.{arith}

module _ {ℓ} {K V : Type ℓ} (dec : Discrete K) where
  -- `v, ok := m[k]`
  unfoldable pub lookup : K → List (K × V) → Option V
  lookup k [] = none
  lookup k ((j, v) ∷ m) = ite (dec j k) (some v) (lookup k m)

  -- `m[k] = v`
  unfoldable pub insert : K → V → List (K × V) → List (K × V)
  insert k v [] = (k, v) ∷ []
  insert k v ((j, w) ∷ m) = ite (dec j k) ((k, v) ∷ m) ((j, w) ∷ insert k v m)

  -- `delete(m, k)`
  unfoldable pub erase : K → List (K × V) → List (K × V)
  erase k [] = []
  erase k ((j, w) ∷ m) = ite (dec j k) (erase k m) ((j, w) ∷ erase k m)

  pub lookup-insert :
      (k j : K) (v : V) (m : List (K × V))
      → lookup j (insert k v m) ≡ ite (dec k j) (some v) (lookup j m)
  unfolding lookup insert
  lookup-insert k j v [] = refl
  lookup-insert k j v ((i, w) ∷ m) = ground (arith, lookup-insert k j v m)

  pub lookup-erase :
      (k j : K) (m : List (K × V)) → lookup j (erase k m) ≡ ite (dec k j) none (lookup j m)
  unfolding lookup erase
  lookup-erase k j [] = ground arith
  lookup-erase k j ((i, w) ∷ m) = ground (arith, lookup-erase k j m)

  -- What is found after a write is what was written, or was there before.
  pub lookup-insert_cases :
      (k j : K) (v w : V) (m : List (K × V))
      → lookup j (insert k v m) ≡ some w
      → (k ≡ j) × (v ≡ w) ⊎ (k ≢ j) × (lookup j m ≡ some w)
  unfolding lookup insert
  lookup-insert_cases k j v w m h = elim (dec k j) [
    | yes e ↦ inl (e, some-injective v w (sym (lookup-insert k j v m ∙ if_pos (dec k j) e _ _) ∙ h))
    | no n ↦ inr (n, sym (lookup-insert k j v m ∙ if_neg (dec k j) n _ _) ∙ h)
  ]

  pub lookup-erase_found :
      (k j : K) (w : V) (m : List (K × V))
      → lookup j (erase k m) ≡ some w
      → (k ≢ j) × (lookup j m ≡ some w)
  lookup-erase_found k j w m h = elim (dec k j) [
    | yes e ↦ absurd (none-ne-some w (sym (lookup-erase k j m ∙ if_pos (dec k j) e _ _) ∙ h))
    | no n ↦ (n, sym (lookup-erase k j m ∙ if_neg (dec k j) n _ _) ∙ h)
  ]

  pub length-insert : (k : K) (v : V) (m : List (K × V)) → length (insert k v m) ≤ suc (length m)
  unfolding insert
  length-insert k v [] = omega arith
  length-insert k v ((i, w) ∷ m) = ground (arith, length-insert k v m)

  pub length-erase : (k : K) (m : List (K × V)) → length (erase k m) ≤ length m
  unfolding erase
  length-erase k [] = omega arith
  length-erase k ((i, w) ∷ m) = ground (arith, length-erase k m)

  -- A key that is there makes `delete` take an entry away.
  pub length-erase_present :
      (k : K) (v : V) (m : List (K × V)) → lookup k m ≡ some v → suc (length (erase k m)) ≤ length m
  unfolding lookup erase
  length-erase_present k v [] h = absurd (ground arith)
  length-erase_present k v ((i, w) ∷ m) h =
      ground (arith, length-erase k m, length-erase_present k v m)

  -- No key stands twice.
  abbrev pub Unique : List (K × V) → Type ℓ
  Unique [] = Unit
  Unique ((k, v) ∷ m) = (lookup k m ≡ none) × Unique m

  pub insert-Unique : (k : K) (v : V) (m : List (K × V)) → Unique m → Unique (insert k v m)
  unfolding insert lookup
  insert-Unique k v [] u = (refl, tt)
  insert-Unique k v ((j, w) ∷ m) (new, u) = elim (dec j k) [
    | yes p ↦ rw (if_pos (dec j k) p) (rw p at new, u)
    | no p ↦ rw (if_neg (dec j k) p) (
      lookup-insert k j v m ∙ if_neg (dec k j) (λ e. p (sym e)) (some v) (lookup j m) ∙ new,
      insert-Unique k v m u,
    )
  ]

module _ {ℓ κ} {K V : Type ℓ} (dec : Discrete K) (P : K × V → Type κ) where
  pub insert-All :
      (k : K) (v : V) (m : List (K × V)) → P (k, v) → All P m → All P (insert dec k v m)
  unfolding insert
  insert-All k v [] p h = (p, tt)
  insert-All k v ((j, w) ∷ m) p (q, h) = elim (dec j k) [
    | yes e ↦ rw (if_pos (dec j k) e) (p, h)
    | no n ↦ rw (if_neg (dec j k) n) (q, insert-All k v m p h)
  ]

  pub erase-All : (k : K) (m : List (K × V)) → All P m → All P (erase dec k m)
  unfolding erase
  erase-All k [] h = tt
  erase-All k ((j, w) ∷ m) (q, h) = elim (dec j k) [
    | yes e ↦ rw (if_pos (dec j k) e) (erase-All k m h)
    | no n ↦ rw (if_neg (dec j k) n) (q, erase-All k m h)
  ]
