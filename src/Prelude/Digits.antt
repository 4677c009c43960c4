-- ===== src/Prelude/Digits.antt =====
-- The native operations on binary digits carry fuel: any fuel that the first number bounds from below
-- is enough.
use Prim.Native.Nat.{ℕ, zero, suc, ◌/◌, ◌≤◌, digits}
use mathlib.Core.Path.{◌≡◌, refl, sym, ◌∙◌}
use native.Mathlib.Omega.{arith}

module _ (rest : ℕ → ℕ) (digit : ℕ → ℕ → ℕ) where
  zero-digits : (fuel b : ℕ) → digits rest digit fuel zero b ≡ rest b
  zero-digits zero b = refl
  zero-digits (suc fuel) b = refl

  pub any_fuel :
      (a fuel spare b : ℕ)
      → a ≤ fuel
      → a ≤ spare
      → digits rest digit fuel a b ≡ digits rest digit spare a b
  any_fuel zero fuel spare b h k = zero-digits fuel b ∙ sym (zero-digits spare b)
  any_fuel (suc a) zero spare b h k = absurd (omega arith)
  any_fuel (suc a) (suc fuel) zero b h k = absurd (omega arith)
  any_fuel (suc a) (suc fuel) (suc spare) b h k =
      omega (arith, any_fuel (suc a / 2) fuel spare (b / 2) (omega arith) (omega arith))
