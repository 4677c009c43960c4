-- ===== src/Mesh/Bloom.antt =====
-- internal/mesh/bloom.go: the bloom filter of a peer's tags. Items are byte texts, and `uint` has 64 bits.
-- `NewBloomFilter` computes the size and the number of hashes in floating point; both are given here.
pub mod Members
pub mod Wire
use agent_dns.Prelude.{
  ℕ, zero, suc, ◌+◌, ◌*◌, ◌/◌, ◌%◌, ◌^◌, Bool, true, false, List, [], ◌∷◌, Option, none, some,
  Bytes, length, get_elem?, set, replicate, map, bit_xor, ltb, ◌==◌, if◌then◌else◌,
}
use Prim.Native.Nat.{bit_and, bit_or}

pub record BloomFilter : Type 0 where
  pub bits : List Bool
  pub size : ℕ
  pub hash_num : ℕ

-- `k` between 1 and 30.
abbrev pub clamped : ℕ → ℕ
clamped k = if ltb k 1 then 1 else if ltb 30 k then 30 else k

unfoldable pub new_bloom_filter : ℕ → ℕ → BloomFilter
new_bloom_filter m k = record { bits = replicate m false; size = m; hash_num = clamped k }

abbrev pub offset : ℕ
offset = 14695981039346656037

abbrev pub prime : ℕ
prime = 1099511628211

-- `fnv.New64a`: a byte is mixed in before the product.
unfoldable pub fnv64a : ℕ → Bytes → ℕ
fnv64a h [] = h
fnv64a h (b ∷ data_) = fnv64a (bit_xor h b * prime % 2 ^ 64) data_

-- `fnv.New64`: after it.
unfoldable pub fnv64 : ℕ → Bytes → ℕ
fnv64 h [] = h
fnv64 h (b ∷ data_) = fnv64 (bit_xor (h * prime % 2 ^ 64) b) data_

unfoldable pub hash1 : BloomFilter → Bytes → ℕ
unfolding fnv64a
hash1 bf item = fnv64a offset item % bf.size

-- A zero result is replaced with 1.
unfoldable pub hash2 : BloomFilter → Bytes → ℕ
unfolding fnv64
hash2 bf item = let result = fnv64 offset item % bf.size in if result == 0 then 1 else result

-- `(h1 + i*h2) % bf.size` from index `i`, `n` of them.
unfoldable pub indices_from : ℕ → ℕ → ℕ → ℕ → ℕ → List ℕ
indices_from h1 h2 size i zero = []
indices_from h1 h2 size i (suc n) =
    (h1 + i * h2 % 2 ^ 64) % 2 ^ 64 % size ∷ indices_from h1 h2 size (suc i) n

unfoldable pub indices : BloomFilter → Bytes → List ℕ
unfolding indices_from hash1 hash2
indices bf item = indices_from (hash1 bf item) (hash2 bf item) bf.size 0 bf.hash_num

-- The loop of `Add`.
unfoldable pub set_all : List ℕ → List Bool → List Bool
set_all [] bits = bits
set_all (i ∷ is) bits = set_all is (set bits i true)

unfoldable pub add : Bytes → BloomFilter → BloomFilter
unfolding set_all indices
add item bf = record bf { bits = set_all (indices bf item) bf.bits }

abbrev pub is_set : Option Bool → Bool
is_set none = false
is_set (some b) = b

-- The loop of `Contains`.
unfoldable pub all_set : List ℕ → List Bool → Bool
all_set [] bits = true
all_set (i ∷ is) bits =
    let rest = all_set is bits in if is_set (get_elem? bits i) then rest else false

unfoldable pub contains : Bytes → BloomFilter → Bool
unfolding all_set indices
contains item bf = all_set (indices bf item) bf.bits

unfoldable pub match_count : List Bytes → BloomFilter → ℕ
unfolding contains
match_count [] bf = 0
match_count (item ∷ items) bf =
    let rest = match_count items bf in if contains item bf then suc rest else rest

abbrev pub or_zero : Option ℕ → ℕ
or_zero none = 0
or_zero (some b) = b

abbrev pub byte_at : List ℕ → ℕ → ℕ
byte_at data_ i = or_zero (get_elem? data_ i)

-- `data[i/8] |= 1 << (i % 8)` for every bit that is set, from index `i`.
unfoldable pub pack : ℕ → List Bool → List ℕ → List ℕ
pack i [] data_ = data_
pack i (true ∷ bits) data_ =
    pack (suc i) bits (set data_ (i / 8) (bit_or (byte_at data_ (i / 8)) (2 ^ (i % 8))))
pack i (false ∷ bits) data_ = pack (suc i) bits data_

unfoldable pub bytes : BloomFilter → List ℕ
unfolding pack
bytes bf = pack 0 bf.bits (replicate ((length bf.bits + 7) / 8) 0)

-- Bit `i` of the bytes, false behind their end.
abbrev pub bit_at : List ℕ → ℕ → Bool
bit_at data_ i = if bit_and (byte_at data_ (i / 8)) (2 ^ (i % 8)) == 0 then false else true

unfoldable pub unpack : ℕ → List Bool → List ℕ → List Bool
unpack i [] data_ = []
unpack i (b ∷ bits) data_ = bit_at data_ i ∷ unpack (suc i) bits data_

unfoldable pub from_bytes : List ℕ → BloomFilter → BloomFilter
unfolding unpack
from_bytes data_ bf = record bf { bits = unpack 0 bf.bits data_ }

unfoldable pub clear : BloomFilter → BloomFilter
clear bf = record bf { bits = map (λ b. false) bf.bits }
