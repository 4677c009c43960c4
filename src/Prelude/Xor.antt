-- ===== src/Prelude/Xor.antt =====
-- Laws of `^` on numbers: the native operation is a recursion on binary digits, and each law is
-- proved by strong induction over the equation for the lowest digit.
use Prim.Native.Nat.{
  ℕ, zero, suc, ◌+◌, ◌*◌, ◌/◌, ◌%◌, ◌^◌, ◌≤◌, ◌<◌, bit_xor, bit_xor-bitwise, differ, ◌-◌,
}
use agent_dns.Prelude.Digits.{any_fuel}
use mathlib.Core.Path.{◌≡◌, refl}
use native.Mathlib.Nat.{le_refl, pow-suc}
use native.Mathlib.Omega.{arith}

-- The xor of the lowest digits.
abbrev pub low : ℕ → ℕ → ℕ
low a b = (a % 2 + b % 2) % 2

differ-sub : (a b : ℕ) → differ a b ≡ a - b + (b - a)
differ-sub zero b = omega arith
differ-sub (suc a) zero = omega arith
differ-sub (suc a) (suc b) = omega (arith, differ-sub a b)

pub bit_xor_step : (a b : ℕ) → bit_xor a b ≡ bit_xor (a / 2) (b / 2) * 2 + low a b
bit_xor_step zero b = simp bit_xor-bitwise (omega arith)
bit_xor_step (suc a) b =
    let halves =
      any_fuel (λ y. y) differ (suc a / 2) a (suc a / 2) (b / 2) (omega arith)
        (le_refl (suc a / 2)) in
    simp bit_xor-bitwise (omega (arith, halves, differ-sub (suc a % 2) (b % 2)))

xor_self_fuel : (n a : ℕ) → a ≤ n → bit_xor a a ≡ 0
xor_self_fuel zero zero h = refl
xor_self_fuel zero (suc a) h = absurd (omega arith)
xor_self_fuel (suc n) a h = omega (arith, bit_xor_step a a, xor_self_fuel n (a / 2) (omega arith))

pub bit_xor_self : (a : ℕ) → bit_xor a a ≡ 0
bit_xor_self a = xor_self_fuel a a (le_refl a)

xor_comm_fuel : (n a b : ℕ) → a ≤ n → b ≤ n → bit_xor a b ≡ bit_xor b a
xor_comm_fuel zero zero zero h k = refl
xor_comm_fuel zero zero (suc b) h k = absurd (omega arith)
xor_comm_fuel zero (suc a) b h k = absurd (omega arith)
xor_comm_fuel (suc n) a b h k = omega (
  arith,
  bit_xor_step a b,
  bit_xor_step b a,
  xor_comm_fuel n (a / 2) (b / 2) (omega arith) (omega arith),
)

pub bit_xor_comm : (a b : ℕ) → bit_xor a b ≡ bit_xor b a
bit_xor_comm a b = xor_comm_fuel (a + b) a b (omega arith) (omega arith)

-- `a ^ b` fits the digits of both, and never exceeds their sum.
xor_le_fuel : (n a b : ℕ) → a ≤ n → b ≤ n → bit_xor a b ≤ a + b
xor_le_fuel zero zero zero h k = omega arith
xor_le_fuel zero zero (suc b) h k = absurd (omega arith)
xor_le_fuel zero (suc a) b h k = absurd (omega arith)
xor_le_fuel (suc n) a b h k =
    omega (arith, bit_xor_step a b, xor_le_fuel n (a / 2) (b / 2) (omega arith) (omega arith))

pub bit_xor-le-add : (a b : ℕ) → bit_xor a b ≤ a + b
bit_xor-le-add a b = xor_le_fuel (a + b) a b (omega arith) (omega arith)

pub bit_xor-lt : (k a b : ℕ) → a < 2 ^ k → b < 2 ^ k → bit_xor a b < 2 ^ k
bit_xor-lt zero zero zero h k = omega arith
bit_xor-lt zero zero (suc b) h k = absurd (omega arith)
bit_xor-lt zero (suc a) b h k = absurd (omega arith)
bit_xor-lt (suc m) a b h k = omega (
  arith,
  pow-suc 2 m,
  bit_xor_step a b,
  bit_xor-lt m (a / 2) (b / 2) (omega (arith, pow-suc 2 m)) (omega (arith, pow-suc 2 m)),
)

xor_assoc_fuel :
    (n a b c : ℕ) → a ≤ n → b ≤ n → c ≤ n → bit_xor (bit_xor a b) c ≡ bit_xor a (bit_xor b c)
xor_assoc_fuel zero zero zero zero h k l = refl
xor_assoc_fuel zero (suc a) b c h k l = absurd (omega arith)
xor_assoc_fuel zero zero (suc b) c h k l = absurd (omega arith)
xor_assoc_fuel zero zero zero (suc c) h k l = absurd (omega arith)
xor_assoc_fuel (suc n) a b c h k l =
    let ih = xor_assoc_fuel n (a / 2) (b / 2) (c / 2) (omega arith) (omega arith) (omega arith) in
    let left : bit_xor a b / 2 ≡ bit_xor (a / 2) (b / 2) = omega (arith, bit_xor_step a b) in
    let right : bit_xor b c / 2 ≡ bit_xor (b / 2) (c / 2) = omega (arith, bit_xor_step b c) in
    let outer : bit_xor (bit_xor a b / 2) (c / 2) ≡ bit_xor (a / 2) (bit_xor b c / 2) =
      rw (left, right) ih in
    omega (
      arith,
      outer,
      bit_xor_step (bit_xor a b) c,
      bit_xor_step a (bit_xor b c),
      bit_xor_step a b,
      bit_xor_step b c,
    )

pub bit_xor_assoc : (a b c : ℕ) → bit_xor (bit_xor a b) c ≡ bit_xor a (bit_xor b c)
bit_xor_assoc a b c = xor_assoc_fuel (a + b + c) a b c (omega arith) (omega arith) (omega arith)

pub bit_xor-zero : (a : ℕ) → bit_xor 0 a ≡ a
bit_xor-zero a = bit_xor-bitwise 0 a

-- `a ^ (a ^ b)` is `b`.
pub bit_xor_cancel : (a b : ℕ) → bit_xor a (bit_xor a b) ≡ b
bit_xor_cancel a b = rw (← bit_xor_assoc, bit_xor_self) (bit_xor-zero b)
