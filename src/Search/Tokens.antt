-- ===== src/Search/Tokens.antt =====
-- internal/search/keyword.go: `tokenize`. A text is the list of the runes that ranging over it gives.
-- A token has ASCII runes only, so it is also the list of its bytes.
use agent_dns.Prelude.{
  ℕ, ◌+◌, Bool, false, ◌&&◌, ◌||◌, List, [], ◌∷◌, ◌++◌, Bytes, Bytes-discrete, length, map, ltb,
  leb, ◌==◌, if◌then◌else◌, ite,
}

-- `strings.ToLower` maps the runes. Outside of ASCII, `unicode.ToLower` is a table.
unfoldable pub to_lower : (ℕ → ℕ) → Bytes → Bytes
to_lower unicode =
    map (λ r. if leb 128 r then unicode r else if leb 65 r && leb r 90 then r + 32 else r)

abbrev pub is_separator : ℕ → Bool
is_separator r = r == b'-' || r == b'_'

-- The test of the loop over the runes.
abbrev pub is_term_rune : ℕ → Bool
is_term_rune r = leb 97 r && leb r 122 || leb 48 r && leb r 57 || is_separator r

abbrev pub contains_any : (ℕ → Bool) → Bytes → Bool
contains_any f [] = false
contains_any f (r ∷ s) = f r || contains_any f s

abbrev pub field_if_any : Bytes → List Bytes
field_if_any [] = []
field_if_any (r ∷ s) = (r ∷ s) ∷ []

-- `strings.FieldsFunc`, behind the runes of the field that is open.
unfoldable pub fields_func : (ℕ → Bool) → Bytes → Bytes → List Bytes
fields_func f field [] = field_if_any field
fields_func f field (r ∷ s) =
    let rest = fields_func f (if f r then [] else field ++ r ∷ []) s in
    if f r then field_if_any field ++ rest else rest

-- `part != full && len(part) >= 2`
unfoldable pub kept_parts : Bytes → List Bytes → List Bytes
kept_parts full [] = []
kept_parts full (part ∷ parts) =
    let rest = kept_parts full parts in
    ite (Bytes-discrete part full) rest (if leb 2 (length part) then part ∷ rest else rest)

-- What `flush` appends to the terms.
unfoldable pub flush : Bytes → List Bytes
unfolding fields_func kept_parts
flush full =
    if ltb (length full) 2
    then []
    else full
      ∷ (if contains_any is_separator full
          then kept_parts full (fields_func is_separator [] full)
          else [])

unfoldable pub terms_from : Bytes → Bytes → List Bytes
unfolding flush
terms_from current [] = flush current
terms_from current (r ∷ text) =
    let rest = terms_from (if is_term_rune r then current ++ r ∷ [] else []) text in
    if is_term_rune r then rest else flush current ++ rest

unfoldable pub tokenize : Bytes → List Bytes
unfolding terms_from
tokenize text = terms_from [] text
