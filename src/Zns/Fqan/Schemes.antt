-- ===== src/Zns/Fqan/Schemes.antt =====
-- The characters that names lack, and the schemes that are stripped.
use agent_dns.Prelude.{ℕ, ◌≢◌, sym, ◌∙◌, [], ◌∷◌, ◌++◌, Bytes, codes, arith, length, take, inl}
use agent_dns.Zns.Fqan.Cuts.{Lacks}
use agent_dns.Zns.Fqan.{slash}
use agent_dns.Zns.Name.Grammar.{IsName, Tail, IsAlnum}
use agent_dns.Zns.Name.{hyphen}

-- A name holds none of the marks of a qualified name.
pub Tail-Lacks : (c : ℕ) {s : Bytes} → c ≢ hyphen → ¬ IsAlnum c → Tail s → Lacks c s
Tail-Lacks c h n Tail.end = tt
Tail-Lacks c h n (Tail.char a t) = (λ e. n (rw e at a), Tail-Lacks c h n t)
Tail-Lacks c h n (Tail.joined e a t) =
    (λ f. h (sym f ∙ e), (λ f. n (rw f at a), Tail-Lacks c h n t))

pub IsName-Lacks : (c : ℕ) {s : Bytes} → c ≢ hyphen → ¬ IsAlnum c → IsName s → Lacks c s
IsName-Lacks c h n (IsName.name l t low high) = (λ e. n (inl (rw e at l)), Tail-Lacks c h n t)

-- No scheme ends where a single slash stands behind the host.
pub no_scheme :
    (w h : Bytes) (c : ℕ) (r : Bytes)
    → Lacks slash w
    → Lacks slash h
    → c ≢ slash
    → take (length (w ++ (slash ∷ slash ∷ []))) (h ++ (slash ∷ c ∷ r)) ≢ w ++ (slash ∷ slash ∷ [])
no_scheme [] [] c r lw lh ne e = ground arith
no_scheme [] (x ∷ h) c r lw (lx, lh) ne e = ground arith
no_scheme (y ∷ w) [] c r (ly, lw) lh ne e = ground arith
no_scheme (y ∷ w) (x ∷ h) c r (ly, lw) (lx, lh) ne e = no_scheme w h c r lw lh ne (ground arith)

-- No scheme, the current one or the legacy one.
pub data Scheme : Bytes → Type 0 where
  bare : Scheme []
  zns : Scheme (codes "zns://")
  agdns : Scheme (codes "agdns://")
