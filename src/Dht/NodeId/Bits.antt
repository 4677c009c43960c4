-- ===== src/Dht/NodeId/Bits.antt =====
-- `LeadingZeros` says between which powers of two the big-endian number lies.
use native.Mathlib.Nat.{pow-suc}
use agent_dns.Dht.NodeId.Value.{weight, value, value-lt-weight}
use agent_dns.Dht.NodeId.{
  NodeId, IsNodeId, id_length, leading_zeros, leading_zeros_from, leading_zeros8, is_zero,
}
use agent_dns.Prelude.{
  ℕ, zero, suc, ◌+◌, ◌-◌, ◌*◌, ◌^◌, ◌≤◌, ◌<◌, ◌≡◌, refl, false, [], ◌∷◌, Bytes, AreBytes, length,
  arith, dec_lt,
}

pub pow_add : (k m : ℕ) → 2 ^ (k + m) ≡ 2 ^ k * 2 ^ m
pow_add zero m = let e : 0 + m ≡ m = omega arith in rw e (omega arith)
pow_add (suc k) m =
    let e : suc k + m ≡ suc (k + m) = omega arith in
    rw (e, pow-suc 2 (k + m), pow_add k m, pow-suc 2 k) (grind arith)

weight-pow : (id : Bytes) → weight id ≡ 2 ^ (8 * length id)
weight-pow [] = refl
weight-pow (b ∷ id) =
    let e : 8 * suc (length id) ≡ 8 + 8 * length id = omega arith in
    rw (e, pow_add 8 (8 * length id), weight-pow id) refl

-- The highest one of a byte.
leading_zeros8_bounds :
    (b : ℕ)
    → 0 < b
    → b < 256
    → (leading_zeros8 b ≤ 7) × (2 ^ (7 - leading_zeros8 b) ≤ b) × (b < 2 ^ (8 - leading_zeros8 b))
unfolding leading_zeros8
leading_zeros8_bounds b h k = ground arith

scale : (b w v p q : ℕ) → p ≤ b → b < q → v < w → (p * w ≤ b * w + v) × (b * w + v < q * w)
scale b w v p q h k l = grind arith

leading_zeros_from_skip :
    (i b : ℕ) (id : Bytes) → b ≡ 0 → leading_zeros_from i (b ∷ id) ≡ leading_zeros_from (i + 1) id
unfolding leading_zeros_from
leading_zeros_from_skip i b id h = ground arith

leading_zeros_from_stop :
    (i b : ℕ) (id : Bytes) → 0 < b → leading_zeros_from i (b ∷ id) ≡ i * 8 + leading_zeros8 b
unfolding leading_zeros_from
leading_zeros_from_stop i b id h = ground arith

is_zero-cons : (b : ℕ) (id : Bytes) → is_zero (b ∷ id) ≡ false → b ≡ 0 → is_zero id ≡ false
unfolding is_zero
is_zero-cons b id h z = ground arith

is_zero-nil : ¬ (is_zero [] ≡ false)
unfolding is_zero
is_zero-nil h = cc

leading_zeros_from_bounds :
    (i : ℕ) (id : Bytes)
    → i + length id ≡ id_length
    → AreBytes id
    → is_zero id ≡ false
    → (leading_zeros_from i id < 256)
      × (2 ^ (255 - leading_zeros_from i id) ≤ value id)
      × (value id < 2 ^ (256 - leading_zeros_from i id))
leading_zeros_from_bounds i [] e h nz = absurd (is_zero-nil nz)
leading_zeros_from_bounds i (b ∷ id) e (hb, h) nz = elim (dec_lt 0 b) [
  | no z ↦
      let none_yet : b ≡ 0 = omega arith in
      let (small, above, below) =
        leading_zeros_from_bounds (i + 1) id (omega arith) h (is_zero-cons b id nz none_yet) in
      let same : b * weight id + value id ≡ value id = rw none_yet (omega arith) in
      rw (leading_zeros_from_skip i b id none_yet) (small, rw same above, rw same below)
  | yes s ↦
      let q = leading_zeros8 b in
      let n = length id in
      let (small, above, below) = leading_zeros8_bounds b s hb in
      let low : 255 - (i * 8 + q) ≡ 7 - q + 8 * n = omega arith in
      let high : 256 - (i * 8 + q) ≡ 8 - q + 8 * n = omega arith in
      let (l, r) =
        scale b (weight id) (value id) (2 ^ (7 - q)) (2 ^ (8 - q)) above below
          (value-lt-weight id h) in
      rw
        (
          leading_zeros_from_stop i b id s,
          low,
          high,
          pow_add (7 - q),
          pow_add (8 - q),
          ← weight-pow,
        )
        (omega arith, l, r)
]

-- An identifier that is not zero has its highest one at bit `255 - LeadingZeros`.
pub leading_zeros_bounds :
    (id : NodeId)
    → IsNodeId id
    → is_zero id ≡ false
    → (leading_zeros id < 256)
      × (2 ^ (255 - leading_zeros id) ≤ value id)
      × (value id < 2 ^ (256 - leading_zeros id))
unfolding leading_zeros
leading_zeros_bounds id h nz = leading_zeros_from_bounds 0 id (omega (arith, h.size)) h.bytes nz
