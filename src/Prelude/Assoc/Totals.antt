-- ===== src/Prelude/Assoc/Totals.antt =====
-- Sums over the values of a map, and how a write or a deletion moves them.
use Prim.Native.Nat.{ℕ, ◌+◌}
use agent_dns.Prelude.Assoc.{lookup, insert, erase, Unique}
use mathlib.Core.List.{List, [], ◌∷◌}
use mathlib.Core.Logic.{if_pos, if_neg}
use mathlib.Core.Option.{Option, none, some}
use mathlib.Core.Path.{◌≡◌, refl, sym, subst, ◌∙◌}
use native.Mathlib.Omega.{arith}

module _ {ℓ} {K V : Type ℓ} (dec : Discrete K) where
  -- What a deletion leaves is none of the key's.
  pub erase_absent : (k : K) (m : List (K × V)) → lookup dec k m ≡ none → erase dec k m ≡ m
  unfolding lookup erase
  erase_absent k [] h = refl
  erase_absent k ((j, w) ∷ m) h = elim (dec j k) [
    | yes p ↦ absurd (ground arith)
    | no p ↦
        let off : lookup dec k m ≡ none = sym (if_neg (dec j k) p (some w) (lookup dec k m)) ∙ h in
        if_neg (dec j k) p (erase dec k m) ((j, w) ∷ erase dec k m)
        ∙ (λ i. (j, w) ∷ erase_absent k m off i)
  ]

  pub lookup-erase_absent :
      (k j : K) (m : List (K × V)) → lookup dec j m ≡ none → lookup dec j (erase dec k m) ≡ none
  unfolding lookup erase
  lookup-erase_absent k j [] h = refl
  lookup-erase_absent k j ((i, w) ∷ m) h = ground (arith, lookup-erase_absent k j m)

  pub erase-Unique : (k : K) (m : List (K × V)) → Unique dec m → Unique dec (erase dec k m)
  unfolding erase
  erase-Unique k [] u = tt
  erase-Unique k ((j, w) ∷ m) (new, u) = elim (dec j k) [
    | yes p ↦ rw (if_pos (dec j k) p) (erase-Unique k m u)
    | no p ↦ rw (if_neg (dec j k) p) (lookup-erase_absent k j m new, erase-Unique k m u)
  ]

  module _ (w : V → ℕ) where
    abbrev pub total : List (K × V) → ℕ
    total [] = 0
    total ((k, v) ∷ m) = w v + total m

    abbrev pub weight : Option V → ℕ
    weight none = 0
    weight (some v) = w v

    pub total-insert :
        (k : K) (v : V) (m : List (K × V))
        → total (insert dec k v m) + weight (lookup dec k m) ≡ w v + total m
    unfolding insert lookup
    total-insert k v [] = omega arith
    total-insert k v ((j, x) ∷ m) = ground (arith, total-insert k v m)

    pub total-erase :
        (k : K) (m : List (K × V))
        → Unique dec m
        → total (erase dec k m) + weight (lookup dec k m) ≡ total m
    unfolding erase lookup
    total-erase k [] u = refl
    total-erase k ((j, x) ∷ m) (new, u) = elim (dec j k) [
      | yes p ↦
          let off : lookup dec k m ≡ none = subst (λ i. lookup dec i m ≡ none) p new in
          ground (arith, erase_absent k m off)
      | no p ↦ ground (arith, total-erase k m u)
    ]
