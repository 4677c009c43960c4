-- ===== src/Mesh/Bloom/Wire.antt =====
-- The bytes in which a bloom filter is sent.
use agent_dns.Mesh.Bloom.{BloomFilter, or_zero, byte_at, pack, bytes, bit_at, unpack, from_bytes}
use agent_dns.Prelude.{
  ℕ, zero, suc, ◌+◌, ◌*◌, ◌/◌, ◌%◌, ◌^◌, ◌<◌, ◌≤◌, ◌≡◌, ◌≢◌, refl, sym, ap, ◌∙◌, Bool, true, false,
  List, [], ◌∷◌, length, set, replicate, length-set, length-replicate, get_elem?-set_self,
  get_elem?-set_ne, has_bit, test_bit, has_bit-or, ◌==◌, if◌then◌else◌, ℕ_discrete, arith,
}
use Prim.Native.Nat.{bit_or}

bit_at_lem : (d : List ℕ) (j : ℕ) → bit_at d j ≡ has_bit (j % 8) (byte_at d (j / 8))
bit_at_lem d j = test_bit (j % 8) (byte_at d (j / 8))

-- What `Bytes` does for a bit that is set.
abbrev marked : ℕ → List ℕ → List ℕ
marked i d = set d (i / 8) (bit_or (byte_at d (i / 8)) (2 ^ (i % 8)))

byte_at-set_self : (d : List ℕ) (k v : ℕ) → k < length d → byte_at (set d k v) k ≡ v
byte_at-set_self d k v h = ap or_zero (get_elem?-set_self d k v h)

byte_at-set_ne : (d : List ℕ) (k j v : ℕ) → k ≢ j → byte_at (set d k v) j ≡ byte_at d j
byte_at-set_ne d k j v h = ap or_zero (get_elem?-set_ne d k j v h)

mark_lem :
    (i j : ℕ) (d : List ℕ)
    → i / 8 < length d
    → bit_at (marked i d) j ≡ (if j == i then true else bit_at d j)
mark_lem i j d h = elim (ℕ_discrete (i / 8) (j / 8)) [
  | yes same ↦
      let byte : byte_at (marked i d) (j / 8) ≡ bit_or (byte_at d (j / 8)) (2 ^ (i % 8)) =
        rw (sym same) (byte_at-set_self d (i / 8) _ h) in
      let new =
        bit_at_lem (marked i d) j
        ∙ ap (has_bit (j % 8)) byte
        ∙ has_bit-or (i % 8) (j % 8) (byte_at d (j / 8)) in
      let test : (j % 8 == i % 8) ≡ (j == i) = ground (arith, same) in
      new
      ∙ ap (λ b. if b then true else has_bit (j % 8) (byte_at d (j / 8))) test
      ∙ ap (λ y. if j == i then true else y) (sym (bit_at_lem d j))
  | no other ↦
      let new =
        bit_at_lem (marked i d) j
        ∙ ap (has_bit (j % 8)) (byte_at-set_ne d (i / 8) (j / 8) _ other)
        ∙ sym (bit_at_lem d j) in
      let apart : j ≢ i = λ e. other (ap (λ n. n / 8) (sym e)) in
      let test : false ≡ (j == i) = ground (arith, apart) in
      new ∙ ap (λ b. if b then true else bit_at d j) test
]

mark_other : (i j : ℕ) (d : List ℕ) → i / 8 < length d → j ≢ i → bit_at (marked i d) j ≡ bit_at d j
mark_other i j d h n =
    let test : (j == i) ≡ false = ground (arith, n) in
    mark_lem i j d h ∙ ap (λ b. if b then true else bit_at d j) test

mark_self : (i : ℕ) (d : List ℕ) → i / 8 < length d → bit_at (marked i d) i ≡ true
mark_self i d h =
    let test : (i == i) ≡ true = ground arith in
    mark_lem i i d h ∙ ap (λ b. if b then true else bit_at d i) test

-- Packing bits from index `i` leaves the bits before it alone.
pack_before :
    (i j : ℕ) (bits : List Bool) (d : List ℕ)
    → i + length bits ≤ 8 * length d
    → j < i
    → bit_at (pack i bits d) j ≡ bit_at d j
unfolding pack
pack_before i j [] d room h = refl
pack_before i j (false ∷ bits) d room h = pack_before (suc i) j bits d (omega arith) (omega arith)
pack_before i j (true ∷ bits) d room h =
    pack_before (suc i) j bits (marked i d)
      (omega (arith, length-set d (i / 8) (bit_or (byte_at d (i / 8)) (2 ^ (i % 8))))) (omega arith)
    ∙ mark_other i j d (omega arith) (λ e. absurd (omega arith))

unpack-pack :
    (i : ℕ) (bits : List Bool) (d : List ℕ)
    → i + length bits ≤ 8 * length d
    → ((j : ℕ) → i ≤ j → bit_at d j ≡ false)
    → unpack i bits (pack i bits d) ≡ bits
unfolding unpack pack
unpack-pack i [] d room unset = refl
unpack-pack i (false ∷ bits) d room unset =
    let head = pack_before (suc i) i bits d (omega arith) (omega arith) ∙ unset i (omega arith) in
    let rest = unpack-pack (suc i) bits d (omega arith) (λ j h. unset j (omega arith)) in
    λ k. head k ∷ rest k
unpack-pack i (true ∷ bits) d room unset =
    let size = length-set d (i / 8) (bit_or (byte_at d (i / 8)) (2 ^ (i % 8))) in
    let head =
      pack_before (suc i) i bits (marked i d) (omega (arith, size)) (omega arith)
      ∙ mark_self i d (omega arith) in
    let rest =
      unpack-pack (suc i) bits (marked i d) (omega (arith, size)) (λ j h.
        mark_other i j d (omega arith) (λ e. absurd (omega arith)) ∙ unset j (omega arith)) in
    λ k. head k ∷ rest k

-- The old bits serve only for their number.
unpack-length :
    (i : ℕ) (bits old : List Bool) (d : List ℕ)
    → length old ≡ length bits
    → unpack i old d ≡ unpack i bits d
unfolding unpack
unpack-length i [] [] d h = refl
unpack-length i [] (b ∷ old) d h = absurd (omega arith)
unpack-length i (b ∷ bits) [] d h = absurd (omega arith)
unpack-length i (b ∷ bits) (c ∷ old) d h =
    ap (◌∷◌ (bit_at d i)) (unpack-length (suc i) bits old d (omega arith))

has_bit-zero : (j : ℕ) → has_bit j 0 ≡ false
has_bit-zero zero = refl
has_bit-zero (suc j) = has_bit-zero j

zero_byte : (n k : ℕ) → byte_at (replicate n 0) k ≡ 0
zero_byte zero k = refl
zero_byte (suc n) zero = refl
zero_byte (suc n) (suc k) = zero_byte n k

-- A filter that receives the bytes of another one with as many bits has the bits of that one.
pub from_bytes-bytes :
    (bf other : BloomFilter)
    → length other.bits ≡ length bf.bits
    → (from_bytes (bytes bf) other).bits ≡ bf.bits
unfolding from_bytes bytes
from_bytes-bytes bf other h =
    let n = (length bf.bits + 7) / 8 in
    let blank : List ℕ = replicate n 0 in
    unpack-length 0 bf.bits other.bits (bytes bf) h
    ∙ unpack-pack 0 bf.bits blank (omega (arith, length-replicate {A = ℕ} n 0)) (λ j k.
      bit_at_lem blank j ∙ ap (has_bit (j % 8)) (zero_byte n (j / 8)) ∙ has_bit-zero (j % 8))
