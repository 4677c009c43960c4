-- ===== src/Dht/NodeId/Metric.antt =====
-- The XOR distance is a metric, and each distance from a point is that of one point only.
use native.Mathlib.Nat.{mul-le-mul_right}
use agent_dns.Dht.NodeId.Value.{weight, value, weight_eq}
use agent_dns.Dht.NodeId.{NodeId, IsNodeId, distance, is_zero}
use agent_dns.Prelude.{
  ℕ, suc, ◌+◌, ◌*◌, ◌≤◌, ◌≡◌, ◌↔◌, refl, ap, true, [], ◌∷◌, Bytes, AreBytes, length, arith, bit_xor,
  bit_xor_self, bit_xor_comm, bit_xor-le-add, bit_xor-lt, bit_xor_assoc, bit_xor_cancel,
  bit_xor-zero, ◌∙◌,
}

pub length-distance : (a b : Bytes) → length a ≡ length b → length (distance a b) ≡ length a
unfolding distance
length-distance [] b h = refl
length-distance (x ∷ a) [] h = absurd (omega arith)
length-distance (x ∷ a) (y ∷ b) h = ap suc (length-distance a b (omega arith))

distance-AreBytes : (a b : Bytes) → AreBytes a → AreBytes b → AreBytes (distance a b)
unfolding distance
distance-AreBytes [] b ha hb = tt
distance-AreBytes (x ∷ a) [] ha hb = tt
distance-AreBytes (x ∷ a) (y ∷ b) (hx, ha) (hy, hb) =
    (bit_xor-lt 8 x y hx hy, distance-AreBytes a b ha hb)

pub distance-IsNodeId : (a b : NodeId) → IsNodeId a → IsNodeId b → IsNodeId (distance a b)
distance-IsNodeId a b ha hb = record {
  size = omega (arith, length-distance a b, ha.size, hb.size);
  bytes = distance-AreBytes a b ha.bytes hb.bytes;
}

distance_comm : (a b : Bytes) → length a ≡ length b → distance a b ≡ distance b a
unfolding distance
distance_comm [] [] h = refl
distance_comm [] (y ∷ b) h = absurd (omega arith)
distance_comm (x ∷ a) [] h = absurd (omega arith)
distance_comm (x ∷ a) (y ∷ b) h = cc (bit_xor_comm x y, distance_comm a b (omega arith))

is_zero-distance_self : (a : Bytes) → is_zero (distance a a) ≡ true
unfolding distance is_zero
is_zero-distance_self [] = refl
is_zero-distance_self (x ∷ a) = ground (arith, bit_xor_self x, is_zero-distance_self a)

-- From `x ^ y = 0` it follows that `x = y`.
eq_of_xor_zero : (x y : ℕ) → bit_xor x y ≡ 0 → x ≡ y
eq_of_xor_zero x y h = cc (h, bit_xor_cancel x y, bit_xor_comm x 0, bit_xor-zero x)

eq_of_distance_zero : (a b : Bytes) → length a ≡ length b → is_zero (distance a b) ≡ true → a ≡ b
unfolding distance is_zero
eq_of_distance_zero [] [] h z = refl
eq_of_distance_zero [] (y ∷ b) h z = absurd (omega arith)
eq_of_distance_zero (x ∷ a) [] h z = absurd (omega arith)
eq_of_distance_zero (x ∷ a) (y ∷ b) h z =
    ground (arith, eq_of_xor_zero x y, eq_of_distance_zero a b (omega arith))

xor_triangle : (x y z : ℕ) → bit_xor x z ≤ bit_xor x y + bit_xor y z
xor_triangle x y z =
    let e : bit_xor (bit_xor x y) (bit_xor y z) ≡ bit_xor x z =
      bit_xor_assoc x y (bit_xor y z) ∙ ap (bit_xor x) (bit_xor_cancel y z) in
    rw (← e) (bit_xor-le-add (bit_xor x y) (bit_xor y z))

scale_add : (p q r w u v t : ℕ) → p ≤ q + r → u ≤ v + t → p * w + u ≤ q * w + v + (r * w + t)
scale_add p q r w u v t h k = omega (arith, mul-le-mul_right w h)

distance_triangle :
    (a b c : Bytes)
    → length a ≡ length b
    → length b ≡ length c
    → value (distance a c) ≤ value (distance a b) + value (distance b c)
unfolding distance
distance_triangle [] [] c h k = omega arith
distance_triangle [] (y ∷ b) c h k = absurd (omega arith)
distance_triangle (x ∷ a) [] c h k = absurd (omega arith)
distance_triangle (x ∷ a) (y ∷ b) [] h k = absurd (omega arith)
distance_triangle (x ∷ a) (y ∷ b) (z ∷ c) h k =
    let m =
      weight_eq (distance a b) (distance a c)
        (omega (arith, length-distance a b, length-distance a c)) in
    let n =
      weight_eq (distance b c) (distance a c)
        (omega (arith, length-distance b c, length-distance a c)) in
    rw (m, n)
      (scale_add (bit_xor x z) (bit_xor x y) (bit_xor y z) (weight (distance a c)) _ _ _
        (xor_triangle x y z) (distance_triangle a b c (omega arith) (omega arith)))

distance_cancel : (a b : Bytes) → length a ≡ length b → distance a (distance a b) ≡ b
unfolding distance
distance_cancel [] [] h = refl
distance_cancel [] (y ∷ b) h = absurd (omega arith)
distance_cancel (x ∷ a) [] h = absurd (omega arith)
distance_cancel (x ∷ a) (y ∷ b) h = cc (bit_xor_cancel x y, distance_cancel a b (omega arith))

-- On identifiers the distance is symmetric, is zero exactly between equal identifiers, satisfies
-- the triangle inequality as a big-endian number, and is met by one identifier only from a given
-- one: the point at distance `d` from `a` is `Distance(a, d)`.
pub distance_lem :
    (a b c : NodeId)
    → IsNodeId a
    → IsNodeId b
    → IsNodeId c
    → (distance a b ≡ distance b a)
      × ((is_zero (distance a b) ≡ true) ↔ (a ≡ b))
      × (value (distance a c) ≤ value (distance a b) + value (distance b c))
      × ((distance a b ≡ c) ↔ (distance a c ≡ b))
distance_lem a b c ha hb hc =
    let ab : length a ≡ length b = omega (arith, ha.size, hb.size) in
    let bc : length b ≡ length c = omega (arith, hb.size, hc.size) in
    let ac : length a ≡ length c = omega arith in
    (
      distance_comm a b ab,
      (eq_of_distance_zero a b ab, λ e. rw (← e) (is_zero-distance_self a)),
      distance_triangle a b c ab bc,
      (λ e. rw (← e) (distance_cancel a b ab), λ e. rw (← e) (distance_cancel a c ac)),
    )
