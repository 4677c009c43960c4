-- ===== src/Zns/Name/Grammar.antt =====
-- What the validators accept, as a grammar: words of letters and digits with single hyphens
-- between them.
use agent_dns.Prelude.{
  ℕ, ◌≤◌, ◌≡◌, ◌≢◌, ◌↔◌, ◌⊎◌, refl, sym, Bool, true, false, ◌&&◌, List, [], ◌∷◌, none, some, Bytes,
  length, if◌then◌else◌, arith, inl, inr, ◌∙◌, All, Bytes-discrete,
}
use agent_dns.Zns.Name.{
  reserved, hyphen, all_in_class, ends_with_hyphen, has_double_hyphen, among, reserved_handles,
  is_reserved_handle, check_shape, validate_handle, validate_agent_name,
}

abbrev pub IsLower : ℕ → Type 0
IsLower c = (b'a' ≤ c) × (c ≤ b'z')

abbrev pub IsAlnum : ℕ → Type 0
IsAlnum c = IsLower c ⊎ ((b'0' ≤ c) × (c ≤ b'9'))

-- What may stand behind a letter or a digit.
pub data Tail : Bytes → Type 0 where
  end : Tail []
  char : {c : ℕ} {s : Bytes} → IsAlnum c → Tail s → Tail (c ∷ s)
  joined : {h c : ℕ} {s : Bytes} → h ≡ hyphen → IsAlnum c → Tail s → Tail (h ∷ c ∷ s)

-- A letter, then letters, digits and single hyphens between them: 3 to 40 characters in all.
pub data IsName : Bytes → Type 0 where
  name : {c : ℕ} {s : Bytes} → IsLower c → Tail s → 2 ≤ length s → length s ≤ 39 → IsName (c ∷ s)

-- The three checks on the text behind a character that is no hyphen.
abbrev clean : Bytes → Bool
clean s =
    all_in_class s
    && (if ends_with_hyphen s then false else true)
    && (if has_double_hyphen s then false else true)

-- A letter or a digit in front changes nothing.
alnum-clean : (c : ℕ) (s : Bytes) → IsAlnum c → clean (c ∷ s) ≡ clean s
unfolding all_in_class ends_with_hyphen has_double_hyphen
alnum-clean c [] a = ground arith
alnum-clean c (d ∷ s) a = ground arith

-- Nor does a hyphen in front of a letter or a digit.
hyphen-clean : (h c : ℕ) (s : Bytes) → h ≡ hyphen → IsAlnum c → clean (h ∷ c ∷ s) ≡ clean (c ∷ s)
unfolding all_in_class ends_with_hyphen has_double_hyphen
hyphen-clean h c s e a = ground arith

Tail-clean : {s : Bytes} → Tail s → clean s ≡ true
unfolding all_in_class ends_with_hyphen has_double_hyphen
Tail-clean end = refl
Tail-clean (char {c} {s} a t) = alnum-clean c s a ∙ Tail-clean t
Tail-clean (joined {h} {c} {s} e a t) = hyphen-clean h c s e a ∙ alnum-clean c s a ∙ Tail-clean t

-- What the checks say of the first character.
clean_head : (c : ℕ) (s : Bytes) → clean (c ∷ s) ≡ true → IsAlnum c ⊎ (c ≡ hyphen)
unfolding all_in_class
clean_head c s h = ground arith

clean_last : (c : ℕ) → clean (c ∷ []) ≡ true → IsAlnum c
unfolding all_in_class ends_with_hyphen
clean_last c h = ground arith

clean_second : (c d : ℕ) (s : Bytes) → clean (c ∷ d ∷ s) ≡ true → c ≡ hyphen → IsAlnum d
unfolding all_in_class has_double_hyphen
clean_second c d s h e = ground arith

clean-Tail : (s : Bytes) → clean s ≡ true → Tail s
clean-Tail [] h = end
clean-Tail (c ∷ []) h = char (clean_last c h) end
clean-Tail (c ∷ d ∷ s) h = elim (clean_head c (d ∷ s) h) [
  | inl a ↦ char a (clean-Tail (d ∷ s) (sym (alnum-clean c (d ∷ s) a) ∙ h))
  | inr e ↦
      let a = clean_second c d s h e in
      joined e a (clean-Tail s (sym (alnum-clean d s a) ∙ sym (hyphen-clean c d s e a) ∙ h))
]

shape_head : (c : ℕ) (s : Bytes) → check_shape (c ∷ s) ≡ none → IsLower c
unfolding check_shape
shape_head c s h = ground arith

-- Behind a first letter the checks are the length and `clean`.
shape-clean :
    (c : ℕ) (s : Bytes)
    → IsLower c
    → check_shape (c ∷ s) ≡ none
    → (clean s ≡ true) × (2 ≤ length s) × (length s ≤ 39)
unfolding check_shape
shape-clean c [] l h = ground arith
shape-clean c (d ∷ s) l h = ground arith

clean-shape :
    (c : ℕ) (s : Bytes)
    → IsLower c
    → clean s ≡ true
    → 2 ≤ length s
    → length s ≤ 39
    → check_shape (c ∷ s) ≡ none
unfolding check_shape
clean-shape c [] l h low high = ground arith
clean-shape c (d ∷ s) l h low high = ground arith

shape-nil : ¬ (check_shape [] ≡ none)
unfolding check_shape
shape-nil h = cc

shape-IsName : (s : Bytes) → check_shape s ≡ none → IsName s
shape-IsName [] h = absurd (shape-nil h)
shape-IsName (c ∷ s) h =
    let l = shape_head c s h in
    let (ok, low, high) = shape-clean c s l h in name l (clean-Tail s ok) low high

IsName-shape : {s : Bytes} → IsName s → check_shape s ≡ none
IsName-shape (name {c} {s} l t low high) = clean-shape c s l (Tail-clean t) low high

-- An agent name is accepted exactly when it is a letter followed by letters, digits and single
-- hyphens between them, 3 to 40 characters in all.
pub validate_agent_name_iff : (s : Bytes) → (validate_agent_name s ≡ none) ↔ IsName s
unfolding validate_agent_name
validate_agent_name_iff [] = (λ h. cc, λ n. elim n [ ])
validate_agent_name_iff (c ∷ s) = (shape-IsName (c ∷ s), IsName-shape)

among-false : (s : Bytes) (ws : List Bytes) → among s ws ≡ false → All (λ w. w ≢ s) ws
unfolding among
among-false s [] h = tt
among-false s (w ∷ ws) h = elim (Bytes-discrete w s) [
  | yes p ↦ absurd (ground arith)
  | no p ↦ (p, among-false s ws (ground arith))
]

false-among : (s : Bytes) (ws : List Bytes) → All (λ w. w ≢ s) ws → among s ws ≡ false
unfolding among
false-among s [] h = refl
false-among s (w ∷ ws) (p, h) = ground (arith, false-among s ws h)

is_reserved_handle_lem : (s : Bytes) → is_reserved_handle s ≡ among s reserved_handles
unfolding is_reserved_handle
is_reserved_handle_lem s = refl

validate_handle-cons :
    (c : ℕ) (s : Bytes)
    → validate_handle (c ∷ s)
      ≡ (if is_reserved_handle (c ∷ s) then some reserved else check_shape (c ∷ s))
unfolding validate_handle
validate_handle-cons c s = refl

validate_handle-nil : ¬ (validate_handle [] ≡ none)
unfolding validate_handle
validate_handle-nil h = cc

pub is_reserved_handle-validate_handle :
    (s : Bytes) → validate_handle s ≡ none → is_reserved_handle s ≡ false
is_reserved_handle-validate_handle [] h = absurd (validate_handle-nil h)
is_reserved_handle-validate_handle (c ∷ s) h = ground (arith, validate_handle-cons c s)

validate_handle-check_shape : (s : Bytes) → validate_handle s ≡ none → check_shape s ≡ none
validate_handle-check_shape [] h = absurd (validate_handle-nil h)
validate_handle-check_shape (c ∷ s) h = ground (arith, validate_handle-cons c s)

accept : {s : Bytes} → IsName s → is_reserved_handle s ≡ false → validate_handle s ≡ none
accept (name {c} {s = t} l tail low high) r =
    ground (arith, validate_handle-cons c t, IsName-shape (name l tail low high))

-- A developer handle is accepted exactly when it is a letter followed by letters, digits and single
-- hyphens between them, 3 to 40 characters in all, and none of the reserved words.
pub validate_handle_iff :
    (s : Bytes) → (validate_handle s ≡ none) ↔ (IsName s × All (λ w. w ≢ s) reserved_handles)
validate_handle_iff s = (
  λ h. (
    shape-IsName s (validate_handle-check_shape s h),
    among-false s reserved_handles
        (sym (is_reserved_handle_lem s) ∙ is_reserved_handle-validate_handle s h),
  ),
  λ (n, a). accept n (is_reserved_handle_lem s ∙ false-among s reserved_handles a),
)
