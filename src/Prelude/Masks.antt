-- ===== src/Prelude/Masks.antt =====
-- Setting and testing one bit of a number, as `x | 1<<i` and `x & 1<<j`.
use Prim.Native.Nat.{
  ℕ, zero, suc, ◌+◌, ◌*◌, ◌/◌, ◌%◌, ◌^◌, ◌≤◌, min, max, bit_and, bit_or, bit_and-bitwise,
  bit_or-bitwise,
}
use agent_dns.Prelude.Digits.{any_fuel}
use agent_dns.Prelude.Tests.{◌==◌, if◌then◌else◌}
use mathlib.Core.Bool.{Bool, true, false}
use mathlib.Core.Path.{◌≡◌, refl, ap, ◌∙◌}
use native.Mathlib.Nat.{le_refl, pow-suc}
use native.Mathlib.Omega.{arith}

-- Where both numbers are doubled and a digit put behind them.
and_step : (a b : ℕ) → bit_and a b ≡ min (a % 2) (b % 2) + 2 * bit_and (a / 2) (b / 2)
and_step zero b = simp bit_and-bitwise (omega arith)
and_step (suc a) b =
    let halves =
      any_fuel (λ y. 0) min (suc a / 2) a (suc a / 2) (b / 2) (omega arith) (le_refl (suc a / 2)) in
    simp bit_and-bitwise (omega (arith, halves))

or_step : (a b : ℕ) → bit_or a b ≡ max (a % 2) (b % 2) + 2 * bit_or (a / 2) (b / 2)
or_step zero b = simp bit_or-bitwise (omega arith)
or_step (suc a) b =
    let halves =
      any_fuel (λ y. y) max (suc a / 2) a (suc a / 2) (b / 2) (omega arith) (le_refl (suc a / 2)) in
    simp bit_or-bitwise (omega (arith, halves))

and_zero_fuel : (n x : ℕ) → x ≤ n → bit_and x 0 ≡ 0
and_zero_fuel zero zero h = refl
and_zero_fuel zero (suc x) h = absurd (omega arith)
and_zero_fuel (suc n) x h = omega (arith, and_step x 0, and_zero_fuel n (x / 2) (omega arith))

or_zero_fuel : (n x : ℕ) → x ≤ n → bit_or x 0 ≡ x
or_zero_fuel zero zero h = refl
or_zero_fuel zero (suc x) h = absurd (omega arith)
or_zero_fuel (suc n) x h = omega (arith, or_step x 0, or_zero_fuel n (x / 2) (omega arith))

-- Whether bit `j` is set.
abbrev pub has_bit : ℕ → ℕ → Bool
has_bit zero x = if x % 2 == 0 then false else true
has_bit (suc j) x = has_bit j (x / 2)

pub test_bit : (j x : ℕ) → (if bit_and x (2 ^ j) == 0 then false else true) ≡ has_bit j x
test_bit zero x =
    let low = and_step x 1 in
    let high = and_zero_fuel (x / 2) (x / 2) (le_refl (x / 2)) in ground (arith, low, high)
test_bit (suc j) x =
    let half : 2 ^ suc j / 2 ≡ 2 ^ j = omega (arith, pow-suc 2 j) in
    let step =
      and_step x (2 ^ suc j) ∙ ap (λ h. min (x % 2) (2 ^ suc j % 2) + 2 * bit_and (x / 2) h) half in
    let even : 2 ^ suc j % 2 ≡ 0 = omega (arith, pow-suc 2 j) in
    let rest = test_bit j (x / 2) in ground (arith, step, even, rest)

pub has_bit-or : (i j x : ℕ) → has_bit j (bit_or x (2 ^ i)) ≡ (if j == i then true else has_bit j x)
has_bit-or zero zero x = ground (arith, or_step x 1)
has_bit-or (suc i) zero x = ground (arith, or_step x (2 ^ suc i), pow-suc 2 i)
has_bit-or zero (suc j) x =
    let high = or_zero_fuel (x / 2) (x / 2) (le_refl (x / 2)) in
    let half : bit_or x 1 / 2 ≡ x / 2 = omega (arith, or_step x 1, high) in rw half (ground arith)
has_bit-or (suc i) (suc j) x =
    let down : 2 ^ suc i / 2 ≡ 2 ^ i = omega (arith, pow-suc 2 i) in
    let step =
      or_step x (2 ^ suc i) ∙ ap (λ h. max (x % 2) (2 ^ suc i % 2) + 2 * bit_or (x / 2) h) down in
    let half : bit_or x (2 ^ suc i) / 2 ≡ bit_or (x / 2) (2 ^ i) =
      omega (arith, step, pow-suc 2 i) in
    rw half (has_bit-or i j (x / 2) ∙ ground arith)
