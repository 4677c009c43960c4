-- ===== src/Zns/Name.antt =====
-- internal/zns/validate.go: `ValidateHandle` and `ValidateAgentName`. `none` is the nil error.
pub mod Grammar
use agent_dns.Prelude.{
  ℕ, Bool, true, false, ◌&&◌, ◌||◌, List, [], ◌∷◌, Option, none, some, Bytes, Bytes-discrete, codes,
  ite, length, leb, ◌==◌, if◌then◌else◌,
}

pub data NameError : Type 0 where
  required reserved malformed trailing_hyphen consecutive_hyphens : NameError

abbrev pub hyphen : ℕ
hyphen = b'-'

abbrev pub is_lower : ℕ → Bool
is_lower c = leb b'a' c && leb c b'z'

abbrev pub is_digit : ℕ → Bool
is_digit c = leb b'0' c && leb c b'9'

-- The class [a-z0-9-].
abbrev pub in_class : ℕ → Bool
in_class c = is_lower c || is_digit c || c == hyphen

unfoldable pub all_in_class : Bytes → Bool
all_in_class [] = true
all_in_class (c ∷ s) = if in_class c then all_in_class s else false

-- `^[a-z][a-z0-9-]{2,39}$`.
unfoldable pub handle_regex : Bytes → Bool
unfolding all_in_class
handle_regex [] = false
handle_regex (c ∷ s) = is_lower c && all_in_class s && leb 2 (length s) && leb (length s) 39

-- `strings.HasSuffix(s, "-")`.
unfoldable pub ends_with_hyphen : Bytes → Bool
ends_with_hyphen [] = false
ends_with_hyphen (c ∷ []) = c == hyphen
ends_with_hyphen (c ∷ d ∷ s) = ends_with_hyphen (d ∷ s)

-- `strings.Contains(s, "--")`.
unfoldable pub has_double_hyphen : Bytes → Bool
has_double_hyphen [] = false
has_double_hyphen (c ∷ []) = false
has_double_hyphen (c ∷ d ∷ s) =
    if c == hyphen && d == hyphen then true else has_double_hyphen (d ∷ s)

abbrev pub reserved_handles : List Bytes
reserved_handles =
    codes "zynd"
    ∷ codes "system"
    ∷ codes "admin"
    ∷ codes "test"
    ∷ codes "root"
    ∷ codes "registry"
    ∷ codes "anonymous"
    ∷ codes "unknown"
    ∷ []

unfoldable pub among : Bytes → List Bytes → Bool
among s [] = false
among s (w ∷ ws) = ite (Bytes-discrete w s) true (among s ws)

unfoldable pub is_reserved_handle : Bytes → Bool
unfolding among
is_reserved_handle handle = among handle reserved_handles

-- The checks that both validators make after their first ones.
unfoldable pub check_shape : Bytes → Option NameError
unfolding handle_regex ends_with_hyphen has_double_hyphen
check_shape s =
    if handle_regex s
    then if ends_with_hyphen s
      then some trailing_hyphen
      else if has_double_hyphen s
      then some consecutive_hyphens
      else none
    else some malformed

unfoldable pub validate_handle : Bytes → Option NameError
unfolding is_reserved_handle check_shape
validate_handle [] = some required
validate_handle (c ∷ s) = if is_reserved_handle (c ∷ s) then some reserved else check_shape (c ∷ s)

unfoldable pub validate_agent_name : Bytes → Option NameError
unfolding check_shape
validate_agent_name [] = some required
validate_agent_name (c ∷ s) = check_shape (c ∷ s)
