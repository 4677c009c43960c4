-- ===== src/Dht/NodeId/Value.antt =====
-- An identifier read as a big-endian number: `Less` is the order of these numbers, and
-- `LeadingZeros` says between which powers of two the number lies.
use agent_dns.Dht.NodeId.{less}
use agent_dns.Prelude.{ℕ, ◌+◌, ◌*◌, ◌<◌, ◌≡◌, refl, [], ◌∷◌, Bytes, AreBytes, length, ltb, arith}

-- `256 ^ length id`, as a power of two.
abbrev pub weight : Bytes → ℕ
weight [] = 1
weight (b ∷ id) = 256 * weight id

abbrev pub value : Bytes → ℕ
value [] = 0
value (b ∷ id) = b * weight id + value id

pub value-lt-weight : (id : Bytes) → AreBytes id → value id < weight id
value-lt-weight [] h = omega arith
value-lt-weight (b ∷ id) (hb, h) = grind (arith, value-lt-weight id h)

pub weight_eq : (a b : Bytes) → length a ≡ length b → weight a ≡ weight b
weight_eq [] [] h = refl
weight_eq [] (y ∷ b) h = absurd (omega arith)
weight_eq (x ∷ a) [] h = absurd (omega arith)
weight_eq (x ∷ a) (y ∷ b) h = omega (arith, weight_eq a b (omega arith))

-- The order of two sums whose low parts fit below the weight.
digit_lt : (x y u v w : ℕ) → x < y → u < w → x * w + u < y * w + v
digit_lt x y u v w h k = grind arith

-- On identifiers of one length, `Less` is the order of the big-endian numbers.
pub less-value :
    (a b : Bytes)
    → length a ≡ length b
    → AreBytes a
    → AreBytes b
    → less a b ≡ ltb (value a) (value b)
unfolding less
less-value [] [] h ha hb = refl
less-value [] (y ∷ b) h ha hb = absurd (omega arith)
less-value (x ∷ a) [] h ha hb = absurd (omega arith)
less-value (x ∷ a) (y ∷ b) h (hx, ha) (hy, hb) = ground (
  arith,
  weight_eq a b (omega arith),
  digit_lt x y (value a) (value b) (weight a),
  digit_lt y x (value b) (value a) (weight a),
  value-lt-weight a ha,
  value-lt-weight b hb,
  less-value a b (omega arith) ha hb,
)
