-- ===== src/Dht/NodeId.antt =====
-- internal/dht/types.go: 256-bit identifiers and their XOR distance. A `NodeID`, an array of 32
-- bytes, is the list of its bytes; a loop over the array's indices is a recursion on the lists.
pub mod Hex
pub mod Value
pub mod Metric
pub mod Bits
use agent_dns.Prelude.{
  ℕ, zero, suc, ◌+◌, ◌-◌, ◌*◌, ◌^◌, ◌≡◌, Bool, true, false, List, [], ◌∷◌, ◌++◌, Bytes, AreBytes,
  bit_xor, length, take, replicate, ltb, ◌==◌, if◌then◌else◌,
}

abbrev pub id_length : ℕ
id_length = 32

abbrev pub NodeId : Type 0
NodeId = Bytes

-- What the type `[IDLength]byte` says of a list of numbers.
pub record IsNodeId (id : NodeId) : Type 0 where
  pub size : length id ≡ id_length
  pub bytes : AreBytes id

-- `copy(id[:], b)` into a zero array.
unfoldable pub node_id_from_bytes : Bytes → NodeId
node_id_from_bytes b = take id_length (b ++ replicate id_length 0)

unfoldable pub distance : NodeId → NodeId → NodeId
distance [] b = []
distance (x ∷ a) [] = []
distance (x ∷ a) (y ∷ b) = bit_xor x y ∷ distance a b

unfoldable pub is_zero : NodeId → Bool
is_zero [] = true
is_zero (b ∷ id) = if b == 0 then is_zero id else false

-- `bits.LeadingZeros8`.
unfoldable pub leading_zeros8 : ℕ → ℕ
leading_zeros8 b =
    if b == 0
    then 8
    else if ltb b 2
    then 7
    else if ltb b 4
    then 6
    else if ltb b 8
    then 5
    else if ltb b 16
    then 4
    else if ltb b 32
    then 3
    else if ltb b 64
    then 2
    else if ltb b 128
    then 1
    else 0

-- The loop of `LeadingZeros`, from index `i`.
unfoldable pub leading_zeros_from : ℕ → NodeId → ℕ
unfolding leading_zeros8
leading_zeros_from i [] = id_length * 8
leading_zeros_from i (b ∷ id) =
    if b == 0 then leading_zeros_from (i + 1) id else i * 8 + leading_zeros8 b

unfoldable pub leading_zeros : NodeId → ℕ
unfolding leading_zeros_from
leading_zeros id = leading_zeros_from 0 id

unfoldable pub less : NodeId → NodeId → Bool
less [] b = false
less (x ∷ a) [] = false
less (x ∷ a) (y ∷ b) = if ltb x y then true else if ltb y x then false else less a b
