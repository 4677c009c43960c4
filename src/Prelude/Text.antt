-- ===== src/Prelude/Text.antt =====
-- Go strings and byte slices as lists of bytes.
use Prim.Native.Char.{code}
use Prim.Native.Nat.{ℕ, ◌<◌}
use Prim.Native.String.{String}
use package.agent_dns.Prelude.Lists.{All}
use mathlib.Core.List.{List, [], ◌∷◌}
use mathlib.Core.Path.{◌≡◌, refl}
use native.Mathlib.Decide.{ℕ_discrete}

abbrev pub Bytes : Type 0
Bytes = List ℕ

-- The code points of a literal; these are its bytes where the text is ASCII.
abbrev pub codes : String → Bytes
codes String.[] = []
codes (String.◌∷◌ c s) = code c ∷ codes s

Bytes-cons : {a b : ℕ} {s t : Bytes} → Dec (a ≡ b) → Dec (s ≡ t) → Dec (Path Bytes (a ∷ s) (b ∷ t))
Bytes-cons (yes p) (yes q) = yes (λ i. p i ∷ q i)
Bytes-cons (yes p) (no n) = no (λ e. n (cc))
Bytes-cons (no n) q = no (λ e. n (cc))

-- `a == b` on strings and on arrays of bytes.
unfoldable pub Bytes-discrete : Discrete Bytes
unfolding ℕ_discrete Bytes-cons
Bytes-discrete [] [] = yes refl
Bytes-discrete [] (b ∷ t) = no (λ e. cc)
Bytes-discrete (a ∷ s) [] = no (λ e. cc)
Bytes-discrete (a ∷ s) (b ∷ t) = Bytes-cons (ℕ_discrete a b) (Bytes-discrete s t)

-- Every element is the value of a `byte`.
abbrev pub AreBytes : Bytes → Type 0
AreBytes = All (λ b. b < 256)
