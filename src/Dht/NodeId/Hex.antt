-- ===== src/Dht/NodeId/Hex.antt =====
-- internal/dht/types.go: hexadecimal keys, and identifiers read from entity ids. `hex_encode` and
-- `hex_decode` are `encoding/hex`'s `EncodeToString` and `DecodeString`; `none` is an error.
pub mod RoundTrip
use agent_dns.Dht.NodeId.{NodeId, id_length, node_id_from_bytes}
use agent_dns.Prelude.{
  ℕ, ◌+◌, ◌-◌, ◌/◌, ◌*◌, ◌%◌, Bool, true, false, ◌&&◌, List, [], ◌∷◌, ◌++◌, Option, none, some,
  Bytes, Bytes-discrete, codes, ite, length, take, drop, ltb, leb, if◌then◌else◌, ◌>>=◌,
}

unfoldable pub hex_char : ℕ → ℕ
hex_char n = if ltb n 10 then b'0' + n else b'a' + n - 10

unfoldable pub hex_encode : Bytes → Bytes
unfolding hex_char
hex_encode [] = []
hex_encode (b ∷ s) = hex_char (b / 16) ∷ hex_char (b % 16) ∷ hex_encode s

unfoldable pub from_hex_char : ℕ → Option ℕ
from_hex_char c =
    if leb b'0' c && leb c b'9'
    then some (c - b'0')
    else if leb b'a' c && leb c b'f'
    then some (c - b'a' + 10)
    else if leb b'A' c && leb c b'F'
    then some (c - b'A' + 10)
    else none

unfoldable pub hex_decode : Bytes → Option Bytes
unfolding from_hex_char
hex_decode [] = some []
hex_decode (c ∷ []) = none
hex_decode (c ∷ d ∷ s) = do
  hi ← from_hex_char c
  lo ← from_hex_char d
  rest ← hex_decode s
  some ((hi * 16 + lo) ∷ rest)

unfoldable pub hex : NodeId → Bytes
unfolding hex_encode
hex id = hex_encode id

unfoldable pub short : NodeId → Bytes
unfolding hex_encode
short id = hex_encode (take 4 id)

-- `len(agentID) > len(prefix) && agentID[:len(prefix)] == prefix`.
unfoldable pub has_prefix : Bytes → Bytes → Bool
has_prefix agent_id prefix =
    if ltb (length prefix) (length agent_id)
    then ite (Bytes-discrete (take (length prefix) agent_id) prefix) true false
    else false

unfoldable pub hex_part : Bytes → List Bytes → Bytes
unfolding has_prefix
hex_part agent_id [] = agent_id
hex_part agent_id (prefix ∷ prefixes) =
    if has_prefix agent_id prefix then drop (length prefix) agent_id else hex_part agent_id prefixes

abbrev pub prefixes : List Bytes
prefixes = codes "zns:registry:" ∷ codes "zns:svc:" ∷ codes "zns:dev:" ∷ codes "zns:" ∷ []

unfoldable pub node_id_from_agent_id : Bytes → Option NodeId
unfolding hex_part hex_decode node_id_from_bytes
node_id_from_agent_id agent_id = do
  b ← hex_decode (hex_part agent_id prefixes)
  some (node_id_from_bytes b)
