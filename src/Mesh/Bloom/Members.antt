-- ===== src/Mesh/Bloom/Members.antt =====
-- The bloom filter has no false negatives.
use agent_dns.Mesh.Bloom.{
  BloomFilter, new_bloom_filter, indices_from, indices, set_all, add, is_set, all_set, contains,
  match_count, clear, hash1, hash2,
}
use native.Mathlib.Nat.{mod-lt}
use agent_dns.Prelude.{
  ℕ, zero, suc, ◌+◌, ◌*◌, ◌%◌, ◌^◌, ◌<◌, ◌≡◌, refl, ap, ◌∙◌, Bool, true, false, List, [], ◌∷◌, some,
  Bytes, length, get_elem?, set, map, length-set, length-replicate, get_elem?-set_self, All,
  All-imp, arith,
}

-- The bits are as many as the size says, and there is one.
pub record IsValid (bf : BloomFilter) : Type 0 where
  pub count : length bf.bits ≡ bf.size
  pub some_bit : 0 < bf.size

pub new_bloom_filter-IsValid : (m k : ℕ) → 0 < m → IsValid (new_bloom_filter m k)
unfolding new_bloom_filter
new_bloom_filter-IsValid m k h = record { count = length-replicate m false; some_bit = h }

-- The bit at an index is set.
abbrev Set : List Bool → ℕ → Type 0
Set bits i = get_elem? bits i ≡ some true

indices-lt : (h1 h2 size i n : ℕ) → 0 < size → All (λ j. j < size) (indices_from h1 h2 size i n)
unfolding indices_from
indices-lt h1 h2 size i zero h = tt
indices-lt h1 h2 size i (suc n) h = (mod-lt _ h, indices-lt h1 h2 size (suc i) n h)

length-set_all : (is : List ℕ) (bits : List Bool) → length (set_all is bits) ≡ length bits
unfolding set_all
length-set_all [] bits = refl
length-set_all (i ∷ is) bits = length-set_all is (set bits i true) ∙ length-set bits i true

set-keeps : (bits : List Bool) (i j : ℕ) → Set bits j → Set (set bits i true) j
set-keeps [] i j h = h
set-keeps (b ∷ bits) zero zero h = refl
set-keeps (b ∷ bits) zero (suc j) h = h
set-keeps (b ∷ bits) (suc i) zero h = h
set-keeps (b ∷ bits) (suc i) (suc j) h = set-keeps bits i j h

set_all-keeps : (is : List ℕ) (bits : List Bool) (j : ℕ) → Set bits j → Set (set_all is bits) j
unfolding set_all
set_all-keeps [] bits j h = h
set_all-keeps (i ∷ is) bits j h = set_all-keeps is (set bits i true) j (set-keeps bits i j h)

set_all-Set :
    (is : List ℕ) (bits : List Bool)
    → All (λ i. i < length bits) is
    → All (Set (set_all is bits)) is
unfolding set_all
set_all-Set [] bits h = tt
set_all-Set (i ∷ is) bits (p, h) = (
  set_all-keeps is (set bits i true) i (get_elem?-set_self bits i true p),
  set_all-Set is (set bits i true) (All-imp (λ j q. rw (length-set bits i true) q) is h),
)

all_set-Set : (is : List ℕ) (bits : List Bool) → All (Set bits) is → all_set is bits ≡ true
unfolding all_set
all_set-Set [] bits h = refl
all_set-Set (i ∷ is) bits (p, h) = rw p (all_set-Set is bits h)

-- Every bit of the item is set.
Holds : BloomFilter → Bytes → Type 0
Holds bf item = All (Set bf.bits) (indices bf item)

pub add-IsValid : (item : Bytes) (bf : BloomFilter) → IsValid bf → IsValid (add item bf)
unfolding add
add-IsValid item bf v = record {
  count = length-set_all (indices bf item) bf.bits ∙ v.count;
  some_bit = v.some_bit;
}

add-Holds : (item : Bytes) (bf : BloomFilter) → IsValid bf → Holds (add item bf) item
unfolding add indices hash1 hash2 Holds
add-Holds item bf v = set_all-Set (indices bf item) bf.bits (
    All-imp (λ j p. rw v.count p) (indices bf item)
      (indices-lt (hash1 bf item) (hash2 bf item) bf.size 0 bf.hash_num v.some_bit))

add-keeps : (item other : Bytes) (bf : BloomFilter) → Holds bf item → Holds (add other bf) item
unfolding add indices hash1 hash2 Holds
add-keeps item other bf h =
    All-imp (λ j p. set_all-keeps (indices bf other) bf.bits j p) (indices bf item) h

-- Calls of `Add`, the first one first.
abbrev pub add_all : List Bytes → BloomFilter → BloomFilter
add_all [] bf = bf
add_all (item ∷ items) bf = add_all items (add item bf)

add_all-keeps :
    (items : List Bytes) (item : Bytes) (bf : BloomFilter)
    → Holds bf item
    → Holds (add_all items bf) item
add_all-keeps [] item bf h = h
add_all-keeps (other ∷ items) item bf h =
    add_all-keeps items item (add other bf) (add-keeps item other bf h)

add_all-Holds :
    (items : List Bytes) (bf : BloomFilter) → IsValid bf → All (Holds (add_all items bf)) items
add_all-Holds [] bf v = tt
add_all-Holds (item ∷ items) bf v = (
  add_all-keeps items item (add item bf) (add-Holds item bf v),
  add_all-Holds items (add item bf) (add-IsValid item bf v),
)

contains-Holds : (item : Bytes) (bf : BloomFilter) → Holds bf item → contains item bf ≡ true
unfolding contains Holds
contains-Holds item bf h = all_set-Set (indices bf item) bf.bits h

match_count-Holds :
    (items : List Bytes) (bf : BloomFilter)
    → All (Holds bf) items
    → match_count items bf ≡ length items
unfolding match_count
match_count-Holds [] bf h = refl
match_count-Holds (item ∷ items) bf (p, h) =
    rw (contains-Holds item bf p) (ap suc (match_count-Holds items bf h))

-- No false negatives: in a filter whose size is the number of its bits, and not zero, all items that
-- were added match, whatever was added before and is added after them.
pub match_count-add_all :
    (items later : List Bytes) (bf : BloomFilter)
    → IsValid bf
    → match_count items (add_all later (add_all items bf)) ≡ length items
match_count-add_all items later bf v = match_count-Holds items (add_all later (add_all items bf)) (
    All-imp (λ item h. add_all-keeps later item (add_all items bf) h) items
      (add_all-Holds items bf v))

none_set : (bits : List Bool) (i : ℕ) → is_set (get_elem? (map (λ b. false) bits) i) ≡ false
none_set [] i = refl
none_set (b ∷ bits) zero = refl
none_set (b ∷ bits) (suc i) = none_set bits i

cleared :
    (h1 h2 size i n : ℕ) (bits : List Bool)
    → 0 < n
    → all_set (indices_from h1 h2 size i n) (map (λ b. false) bits) ≡ false
unfolding indices_from all_set
cleared h1 h2 size i zero bits h = absurd (omega arith)
cleared h1 h2 size i (suc n) bits h =
    rw (none_set bits ((h1 + i * h2 % 2 ^ 64) % 2 ^ 64 % size)) refl

-- A filter that was cleared contains no item, provided it has a hash.
pub contains-clear :
    (item : Bytes) (bf : BloomFilter) → 0 < bf.hash_num → contains item (clear bf) ≡ false
unfolding contains clear indices
contains-clear item bf h =
    cleared (hash1 (clear bf) item) (hash2 (clear bf) item) bf.size 0 bf.hash_num bf.bits h
