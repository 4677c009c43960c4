-- ===== src/Zns/Fqan/Cuts.antt =====
-- Cutting a text at the first or the last of a character.
use agent_dns.Prelude.{
  ℕ, ◌≡◌, ◌≢◌, refl, [], ◌∷◌, ◌++◌, none, some, Bytes, All, ℕ_discrete, arith, Option-cases, inl,
  inr,
}
use agent_dns.Zns.Fqan.{cut_first, cut_last}

abbrev pub Lacks : ℕ → Bytes → Type 0
Lacks c = All (λ x. x ≢ c)

pub cut_first-append : (c : ℕ) (a b : Bytes) → Lacks c a → cut_first c (a ++ (c ∷ b)) ≡ some (a, b)
unfolding cut_first
cut_first-append c [] b h = ground arith
cut_first-append c (x ∷ a) b (ne, h) = ground (arith, cut_first-append c a b h)

pub cut_last-none : (c : ℕ) (s : Bytes) → Lacks c s → cut_last c s ≡ none
unfolding cut_last
cut_last-none c [] h = refl
cut_last-none c (x ∷ s) (ne, h) = ground (arith, cut_last-none c s h)

pub cut_last-append : (c : ℕ) (a b : Bytes) → Lacks c b → cut_last c (a ++ (c ∷ b)) ≡ some (a, b)
unfolding cut_last
cut_last-append c [] b h = ground (arith, cut_last-none c b h)
cut_last-append c (x ∷ a) b h = ground (arith, cut_last-append c a b h)

-- What was cut stands in front of and behind the character.
pub cut_first-some :
    (c : ℕ) (s : Bytes) {a b : Bytes} → cut_first c s ≡ some (a, b) → (s ≡ a ++ (c ∷ b)) × Lacks c a
unfolding cut_first
cut_first-some c [] h = absurd (cc)
cut_first-some c (x ∷ s) {a} {b} h = elim (ℕ_discrete x c) [
  | yes p ↦
      let e : ◌≡◌ {A = Bytes} [] a = ground arith in
      let f : s ≡ b = ground arith in (rw (← e, ← f, p) refl, rw (← e) tt)
  | no p ↦ elim (Option-cases (cut_first c s)) [
    | inl miss ↦ absurd (ground arith)
    | inr ((a', b'), hit) ↦
        let (whole, lacks) = cut_first-some c s hit in
        let e : ◌≡◌ {A = Bytes} (x ∷ a') a = ground arith in
        let f : b' ≡ b = ground arith in (rw (← e, ← f, whole) refl, rw (← e) (p, lacks))
  ]
]
