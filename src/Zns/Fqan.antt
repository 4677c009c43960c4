-- ===== src/Zns/Fqan.antt =====
-- internal/zns/validate.go: fully qualified agent names, "host/developer/agent", with an optional
-- "zns://" scheme, "@version" and "#capability". An error's text is left out, but for the error of
-- a validator that it wraps.
pub mod Cuts
pub mod Schemes
pub mod RoundTrip
pub mod Sound
use agent_dns.Prelude.{
  ℕ, List, [], ◌∷◌, ◌++◌, Option, none, some, Bytes, Bytes-discrete, codes, ite, ℕ_discrete, length,
  take, drop,
}
use agent_dns.Zns.Name.{NameError, validate_handle, validate_agent_name}

pub data FqanError : Type 0 where
  is_empty empty_capability empty_version empty_base bad_format empty_host : FqanError
  bad_developer_handle bad_agent_name : NameError → FqanError

pub data Result {ℓ} (A : Type ℓ) : Type ℓ where
  failed : FqanError → Result A
  ok : A → Result A

infixl 5 ◌>>=◌
abbrev pub ◌>>=◌ {ℓ κ} : {A : Type ℓ} {B : Type κ} → Result A → (A → Result B) → Result B
failed reason >>= next = failed reason
ok value >>= next = next value

abbrev pub slash : ℕ
slash = b'/'

unfoldable pub build_fqan : Bytes → Bytes → Bytes → Bytes
build_fqan registry_host dev_handle agent_name =
    registry_host ++ (slash ∷ (dev_handle ++ (slash ∷ agent_name)))

unfoldable pub build_zns_uri : Bytes → Bytes
build_zns_uri fqan = codes "zns://" ++ fqan

-- `strings.TrimPrefix`.
unfoldable pub trim_prefix : Bytes → Bytes → Bytes
trim_prefix prefix s =
    ite (Bytes-discrete (take (length prefix) s) prefix) (drop (length prefix) s) s

abbrev pub before : ℕ → Option (Bytes × Bytes) → Option (Bytes × Bytes)
before x none = none
before x (some (a, b)) = some (x ∷ a, b)

-- `s[:idx]` and `s[idx+1:]` for `idx := strings.LastIndex(s, c)`.
unfoldable pub cut_last : ℕ → Bytes → Option (Bytes × Bytes)
cut_last c [] = none
cut_last c (x ∷ s) = elim (cut_last c s) [
  | some (a, b) ↦ some (x ∷ a, b)
  | none ↦ ite (ℕ_discrete x c) (some ([], s)) none
]

-- The same for the first `c`.
unfoldable pub cut_first : ℕ → Bytes → Option (Bytes × Bytes)
cut_first c [] = none
cut_first c (x ∷ s) = ite (ℕ_discrete x c) (some ([], s)) (before x (cut_first c s))

-- One qualifier behind the last `mark`: the rest, and the qualifier or "".
abbrev pub qualifier : FqanError → Bytes → Option (Bytes × Bytes) → Result (Bytes × Bytes)
qualifier e s none = ok (s, [])
qualifier e s (some (rest, [])) = failed e
qualifier e s (some (rest, c ∷ q)) = ok (rest, c ∷ q)

abbrev pub non_empty : FqanError → Bytes → Result Bytes
non_empty e [] = failed e
non_empty e (c ∷ s) = ok (c ∷ s)

unfoldable pub parse_qualified_fqan : Bytes → Result (Bytes × Bytes × Bytes)
unfolding trim_prefix cut_last
parse_qualified_fqan fqan = do
  given ← non_empty is_empty fqan
  let s = trim_prefix (codes "agdns://") (trim_prefix (codes "zns://") given)
  (s', capability) ← qualifier empty_capability s (cut_last b'#' s)
  (s'', version) ← qualifier empty_version s' (cut_last b'@' s')
  base ← non_empty empty_base s''
  ok (base, version, capability)

-- `strings.SplitN(base, "/", 3)` with three parts.
unfoldable pub split_three : Bytes → Option (Bytes × Bytes × Bytes)
unfolding cut_first
split_three base = elim (cut_first slash base) [
  | none ↦ none
  | some (host, rest) ↦ elim (cut_first slash rest) [
    | none ↦ none
    | some (dev, agent) ↦ some (host, dev, agent)
  ]
]

abbrev pub checked : (NameError → FqanError) → Bytes → Option NameError → Result Bytes
checked wrap s none = ok s
checked wrap s (some e) = failed (wrap e)

abbrev pub three_parts : Option (Bytes × Bytes × Bytes) → Result (Bytes × Bytes × Bytes)
three_parts none = failed bad_format
three_parts (some parts) = ok parts

-- The checks of the three components.
unfoldable pub validated : Bytes → Bytes → Bytes → Result (Bytes × Bytes × Bytes)
validated registry_host dev_handle agent_name = do
  host ← non_empty empty_host registry_host
  dev ← checked bad_developer_handle dev_handle (validate_handle dev_handle)
  agent ← checked bad_agent_name agent_name (validate_agent_name agent_name)
  ok (host, dev, agent)

unfoldable pub parse_fqan : Bytes → Result (Bytes × Bytes × Bytes)
unfolding parse_qualified_fqan split_three validated
parse_fqan fqan = do
  (base, _, _) ← parse_qualified_fqan fqan
  (registry_host, dev_handle, agent_name) ← three_parts (split_three base)
  validated registry_host dev_handle agent_name
