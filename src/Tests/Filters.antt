-- ===== src/Tests/Filters.antt =====
-- Runs on bloom filters.
use agent_dns.Mesh.Bloom.Members.{
  new_bloom_filter-IsValid, add_all, add-IsValid, match_count-add_all,
}
use agent_dns.Mesh.Bloom.Wire.{from_bytes-bytes}
use agent_dns.Mesh.Bloom.{
  from_bytes, bytes, add, BloomFilter, new_bloom_filter, match_count, fnv64a, fnv64, offset,
}
use agent_dns.Prelude.{◌≡◌, refl, sym, ◌∙◌, List, [], ◌∷◌, Bytes, codes, length, arith}

abbrev filter : BloomFilter
filter = new_bloom_filter 96 7

abbrev tags : List Bytes
tags = codes "translation" ∷ codes "nlp" ∷ []

match_count-add_all_example :
    match_count tags (add_all (codes "vision" ∷ []) (add_all tags filter)) ≡ length tags
match_count-add_all_example =
    match_count-add_all tags (codes "vision" ∷ []) filter
      (new_bloom_filter-IsValid 96 7 (omega arith))

-- The hashes of "a" that FNV documents.
fnv64a_a : fnv64a offset (codes "a") ≡ 12638187200555641996
unfolding fnv64a
fnv64a_a = refl

fnv64_a : fnv64 offset (codes "a") ≡ 12638153115695167422
unfolding fnv64
fnv64_a = refl

same_size : filter.size ≡ (add_all tags filter).size
unfolding new_bloom_filter add
same_size = refl

-- Both filters have 96 bits.
same_bits : length filter.bits ≡ length (add_all tags filter).bits
same_bits =
    let valid = new_bloom_filter-IsValid 96 7 (omega arith) in
    let after =
      add-IsValid (codes "nlp") (add (codes "translation") filter)
        (add-IsValid (codes "translation") filter valid) in
    valid.count ∙ same_size ∙ sym after.count

from_bytes-bytes_example :
    (from_bytes (bytes (add_all tags filter)) filter).bits ≡ (add_all tags filter).bits
from_bytes-bytes_example = from_bytes-bytes (add_all tags filter) filter same_bits
