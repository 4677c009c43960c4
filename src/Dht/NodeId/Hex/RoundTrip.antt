-- ===== src/Dht/NodeId/Hex/RoundTrip.antt =====
-- Hexadecimal keys are read back, and so are the hashes in entity ids.
use agent_dns.Dht.NodeId.Hex.{
  hex_char, hex_encode, from_hex_char, hex_decode, hex, has_prefix, hex_part, prefixes,
  node_id_from_agent_id,
}
use agent_dns.Dht.NodeId.{NodeId, IsNodeId, id_length, node_id_from_bytes}
use agent_dns.Prelude.{
  ℕ, zero, suc, ◌+◌, ◌*◌, ◌/◌, ◌%◌, ◌≡◌, ◌≢◌, ◌<◌, ◌≤◌, refl, ap, true, false, [], ◌∷◌, ◌++◌, some,
  Bytes, AreBytes, Bytes-discrete, codes, length, take, replicate, ◌>>=◌, arith, if_pos, All,
  All-take, lt→ltb, length-append, ◌↔◌, take-append,
}

from_hex_char-hex_char : (n : ℕ) → n < 16 → from_hex_char (hex_char n) ≡ some n
unfolding from_hex_char hex_char
from_hex_char-hex_char n h = ground arith

-- `DecodeString` reads every encoded text back.
pub hex_decode-hex_encode : (s : Bytes) → AreBytes s → hex_decode (hex_encode s) ≡ some s
unfolding hex_decode hex_encode
hex_decode-hex_encode [] h = refl
hex_decode-hex_encode (b ∷ s) (hb, h) =
    let back : b / 16 * 16 + b % 16 ≡ b = omega arith in
    rw
      (
        from_hex_char-hex_char (b / 16) (omega arith),
        from_hex_char-hex_char (b % 16) (omega arith),
        hex_decode-hex_encode s h,
        back,
      )
      refl

hex_char_range : (n : ℕ) → n < 16 → hex_char n ≤ b'f'
unfolding hex_char
hex_char_range n h = ground arith

-- Every character of a hexadecimal text is at most 'f'.
encode_range : (s : Bytes) → AreBytes s → All (λ c. c ≤ b'f') (hex_encode s)
unfolding hex_encode
encode_range [] h = tt
encode_range (b ∷ s) (hb, h) = (
  hex_char_range (b / 16) (omega arith),
  (hex_char_range (b % 16) (omega arith), encode_range s h),
)

-- So no prefix that goes on with a word behind "zns:" fits an agent's id.
no_word :
    (word h : Bytes)
    → All (λ c. c ≤ b'f') h
    → ¬ All (λ c. c ≤ b'f') word
    → has_prefix (codes "zns:" ++ h) (codes "zns:" ++ word) ≡ false
unfolding has_prefix
no_word word h small big =
    elim (Bytes-discrete (take (length (codes "zns:" ++ word)) (codes "zns:" ++ h))
      (codes "zns:" ++ word)) [
        | yes same ↦
            let tails : take (length word) h ≡ word = cc in
            absurd (big (rw tails at (All-take (λ c. c ≤ b'f') (length word) h small)))
        | no other ↦ ground arith
      ]

has_prefix_self : (prefix s : Bytes) → 0 < length s → has_prefix (prefix ++ s) prefix ≡ true
unfolding has_prefix
has_prefix_self prefix s h =
    rw
      (
        lt→ltb (length prefix) (length (prefix ++ s)) (omega (arith, length-append {0} prefix s)),
        if_pos (Bytes-discrete (take (length prefix) (prefix ++ s)) prefix) (take-append prefix s),
      )
      refl

has_prefix_shorter :
    (prefix s : Bytes) → prefix ≢ take (length prefix) s → has_prefix s prefix ≡ false
unfolding has_prefix
has_prefix_shorter prefix s h = ground arith

char_at : ℕ → Bytes → ℕ
char_at i [] = 0
char_at zero (c ∷ s) = c
char_at (suc i) (c ∷ s) = char_at i s

-- The four kinds of ids.
pub data Kind : Bytes → Type 0 where
  registry : Kind (codes "zns:registry:")
  service : Kind (codes "zns:svc:")
  developer : Kind (codes "zns:dev:")
  agent : Kind (codes "zns:")

hex_part_lem :
    {prefix : Bytes}
    → Kind prefix
    → (h : Bytes) → All (λ c. c ≤ b'f') h
    → 0 < length h
    → hex_part (prefix ++ h) prefixes ≡ h
unfolding hex_part char_at
hex_part_lem Kind.registry h small some_left =
    rw (has_prefix_self (codes "zns:registry:") h some_left) refl
hex_part_lem Kind.service h small some_left =
    rw
      (
        has_prefix_shorter (codes "zns:registry:") (codes "zns:svc:" ++ h)
            (λ e. let d = ap (char_at 4) e in omega arith),
        has_prefix_self (codes "zns:svc:") h some_left,
      )
      refl
hex_part_lem Kind.developer h small some_left =
    rw
      (
        has_prefix_shorter (codes "zns:registry:") (codes "zns:dev:" ++ h)
            (λ e. let d = ap (char_at 4) e in omega arith),
        has_prefix_shorter (codes "zns:svc:") (codes "zns:dev:" ++ h)
            (λ e. let d = ap (char_at 4) e in omega arith),
        has_prefix_self (codes "zns:dev:") h some_left,
      )
      refl
hex_part_lem Kind.agent h small some_left =
    rw
      (
        no_word (codes "registry:") h small (λ a. omega arith),
        no_word (codes "svc:") h small (λ a. omega arith),
        no_word (codes "dev:") h small (λ a. omega arith),
        has_prefix_self (codes "zns:") h some_left,
      )
      refl

length-hex_encode : (s : Bytes) → 0 < length s → 0 < length (hex_encode s)
unfolding hex_encode
length-hex_encode [] h = elim h [ ]
length-hex_encode (b ∷ s) h = omega arith

-- The id of an agent, service, developer or registry, a prefix and the hexadecimal hash, gives the
-- hash back, extended with zeros to 32 bytes.
pub node_id_from_agent_id_lem :
    {prefix : Bytes}
    → Kind prefix
    → (hash : Bytes) → AreBytes hash
    → 0 < length hash
    → node_id_from_agent_id (prefix ++ hex_encode hash) ≡ some (node_id_from_bytes hash)
unfolding node_id_from_agent_id
node_id_from_agent_id_lem kind hash h some_left =
    rw
      (
        hex_part_lem kind (hex_encode hash) (encode_range hash h)
            (length-hex_encode hash some_left),
        hex_decode-hex_encode hash h,
      )
      refl

take-append_zeros : (s zeros : Bytes) (n : ℕ) → length s ≡ n → take n (s ++ zeros) ≡ s
take-append_zeros [] zeros zero h = refl
take-append_zeros [] zeros (suc n) h = absurd (omega arith)
take-append_zeros (b ∷ s) zeros zero h = absurd (omega arith)
take-append_zeros (b ∷ s) zeros (suc n) h = ap (◌∷◌ b) (take-append_zeros s zeros n (omega arith))

-- The store's key is read back as the identifier it was made from, so that two identifiers never
-- share a key.
pub hex_key :
    (id other : NodeId)
    → IsNodeId id
    → IsNodeId other
    → ((do b ← hex_decode (hex id); some (node_id_from_bytes b)) ≡ some id)
      × ((hex id ≡ hex other) ↔ (id ≡ other))
unfolding hex node_id_from_bytes
hex_key id other h k =
    let back = hex_decode-hex_encode id h.bytes in
    let back' = hex_decode-hex_encode other k.bytes in
    (
      rw (back, take-append_zeros id (replicate id_length 0) id_length h.size) refl,
      (
        (λ e.
            let same : hex_decode (hex_encode id) ≡ hex_decode (hex_encode other) =
              ap hex_decode e in
            cc),
        (λ e. ap hex_encode e),
      ),
    )
