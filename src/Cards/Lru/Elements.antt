-- ===== src/Cards/Lru/Elements.antt =====
-- internal/card/cache.go: the eviction list, read through the keys of its entries.
use agent_dns.Cards.Lru.{CacheEntry, write, without, is_listed, back}
use agent_dns.Prelude.{
  ℕ, suc, ◌-◌, ◌<◌, ◌≡◌, ◌≢◌, subst, refl, sym, ap, ◌∙◌, List, [], ◌∷◌, Option, none, some, ite,
  if_pos, if_neg, Bytes, Bytes-discrete, ℕ_discrete, length, map, true, All, arith,
}
use mathlib.Core.Option
use mathlib.Core.Option.{some-injective, none-ne-some}

-- The list without its last element.
unfoldable pub init {ℓ} : {A : Type ℓ} → List A → List A
init [] = []
init (x ∷ []) = []
init (x ∷ y ∷ xs) = x ∷ init (y ∷ xs)

-- The entries with another key.
unfoldable pub drop_key : {Card : Type 0} → Bytes → List (CacheEntry Card) → List (CacheEntry Card)
drop_key k [] = []
drop_key k (entry ∷ entries) =
    ite (Bytes-discrete entry.key k) (drop_key k entries) (entry ∷ drop_key k entries)

-- The first entry with the key.
unfoldable pub held : {Card : Type 0} → Bytes → List (CacheEntry Card) → Option (CacheEntry Card)
held k [] = none
held k (entry ∷ entries) = ite (Bytes-discrete entry.key k) (some entry) (held k entries)

module _ {Card : Type 0} (heap : ℕ → CacheEntry Card) where
  -- The first element with the key.
  unfoldable pub find_ref : Bytes → List ℕ → Option ℕ
  find_ref k [] = none
  find_ref k (e ∷ es) = ite (Bytes-discrete (heap e).key k) (some e) (find_ref k es)

  -- No two elements have one key.
  abbrev pub KeysOnce : List ℕ → Type 0
  KeysOnce [] = Unit
  KeysOnce (e ∷ es) = (find_ref (heap e).key es ≡ none) × KeysOnce es

  pub find_ref-key : (k : Bytes) (e : ℕ) (es : List ℕ) → find_ref k es ≡ some e → (heap e).key ≡ k
  unfolding find_ref
  find_ref-key k e [] h = absurd (ground arith)
  find_ref-key k e (x ∷ es) h = ground (arith, find_ref-key k e es, some-injective x e)

  pub find_ref-without :
      (k j : Bytes) (e : ℕ) (es : List ℕ)
      → KeysOnce es
      → find_ref k es ≡ some e
      → find_ref j (without e es) ≡ ite (Bytes-discrete k j) none (find_ref j es)
  unfolding find_ref without
  find_ref-without k j e [] u h = absurd (ground arith)
  find_ref-without k j e (x ∷ es) (new, u) h =
      ground (arith, find_ref-without k j e es u, find_ref-key k e es, some-injective x e, new)

  pub KeysOnce-without :
      (k : Bytes) (e : ℕ) (es : List ℕ)
      → KeysOnce es
      → find_ref k es ≡ some e
      → KeysOnce (without e es)
  unfolding find_ref without
  KeysOnce-without k e [] u h = u
  KeysOnce-without k e (x ∷ es) (new, u) h = elim (ℕ_discrete e x) [
    | yes p ↦ rw (if_pos (ℕ_discrete e x) p) u
    | no n ↦
        let later : find_ref k es ≡ some e = ground (arith, some-injective x e) in
        let apart : find_ref (heap x).key (without e es) ≡ none =
          ground (arith, find_ref-without k (heap x).key e es u, new) in
        rw (if_neg (ℕ_discrete e x) n) (apart, KeysOnce-without k e es u later)
  ]

  pub length-without :
      (k : Bytes) (e : ℕ) (es : List ℕ)
      → find_ref k es ≡ some e
      → suc (length (without e es)) ≡ length es
  unfolding find_ref without
  length-without k e [] h = absurd (ground arith)
  length-without k e (x ∷ es) h = ground (arith, length-without k e es, some-injective x e)

  pub drop_key_absent :
      (k : Bytes) (es : List ℕ) → find_ref k es ≡ none → drop_key k (map heap es) ≡ map heap es
  unfolding find_ref drop_key
  drop_key_absent k [] h = refl
  drop_key_absent k (x ∷ es) h = ground (arith, drop_key_absent k es)

  pub map-without :
      (k : Bytes) (e : ℕ) (es : List ℕ)
      → KeysOnce es
      → find_ref k es ≡ some e
      → map heap (without e es) ≡ drop_key k (map heap es)
  unfolding find_ref without drop_key
  map-without k e [] u h = absurd (ground arith)
  map-without k e (x ∷ es) (new, u) h = ground (
    arith,
    map-without k e es u,
    find_ref-key k e es,
    some-injective x e,
    drop_key_absent k es,
    new,
  )

  pub held-map : (k : Bytes) (es : List ℕ) → held k (map heap es) ≡ Option.map heap (find_ref k es)
  unfolding held find_ref
  held-map k [] = refl
  held-map k (x ∷ es) = ground (arith, held-map k es)

  pub is_listed-found :
      (k : Bytes) (e : ℕ) (es : List ℕ) → find_ref k es ≡ some e → is_listed e es ≡ true
  unfolding find_ref is_listed
  is_listed-found k e [] h = absurd (ground arith)
  is_listed-found k e (x ∷ es) h = ground (arith, is_listed-found k e es, some-injective x e)

  -- The element at the back has its key to itself, and the list without it is the list before it.
  pub back-found :
      (e : ℕ) (es : List ℕ)
      → KeysOnce es
      → back es ≡ some e
      → (find_ref (heap e).key es ≡ some e) × (without e es ≡ init es)
  unfolding find_ref back init without
  back-found e [] u h = absurd (ground arith)
  back-found e (x ∷ []) u h =
      (ground (arith, some-injective x e), ground (arith, some-injective x e))
  back-found e (x ∷ y ∷ es) (new, u) h =
      let (found, cut) : (find_ref (heap e).key (y ∷ es) ≡ some e)
          × (without e (y ∷ es) ≡ init (y ∷ es)) =
        back-found e (y ∷ es) u h in
      let other : (heap x).key ≢ (heap e).key = λ p.
        absurd (none-ne-some e (sym (subst (λ j. find_ref j (y ∷ es) ≡ none) p new) ∙ found)) in
      let apart : e ≢ x = λ p. other (ap (λ j. (heap j).key) (sym p)) in
      (
        if_neg (Bytes-discrete (heap x).key (heap e).key) other (some x)
              (find_ref (heap e).key (y ∷ es))
            ∙ found,
        if_neg (ℕ_discrete e x) apart (y ∷ es) (x ∷ without e (y ∷ es)) ∙ ap (◌∷◌ x) cut,
      )

pub map-init {ℓ κ} :
    {A : Type ℓ} {B : Type κ} (f : A → B) (xs : List A) → map f (init xs) ≡ init (map f xs)
unfolding init
map-init f [] = refl
map-init f (x ∷ []) = refl
map-init f (x ∷ y ∷ xs) = ap (◌∷◌ (f x)) (map-init f (y ∷ xs))

module _ {Card : Type 0} (h h' : ℕ → CacheEntry Card) where
  pub find_ref-heap :
      (k : Bytes) (es : List ℕ)
      → All (λ e. (h' e).key ≡ (h e).key) es
      → find_ref h' k es ≡ find_ref h k es
  unfolding find_ref
  find_ref-heap k [] p = refl
  find_ref-heap k (e ∷ es) (p, ps) = ground (arith, find_ref-heap k es ps, p)

  pub KeysOnce-heap :
      (es : List ℕ) → All (λ e. (h' e).key ≡ (h e).key) es → KeysOnce h es → KeysOnce h' es
  KeysOnce-heap [] p u = tt
  KeysOnce-heap (e ∷ es) (p, ps) (new, u) =
      (find_ref-heap (h' e).key es ps ∙ ap (λ k. find_ref h k es) p ∙ new, KeysOnce-heap es ps u)

  pub map-heap : (es : List ℕ) → All (λ e. h' e ≡ h e) es → map h' es ≡ map h es
  map-heap [] p = refl
  map-heap (e ∷ es) (p, ps) = λ i. p i ∷ map-heap es ps i

pub all_of {ℓ} : {P : ℕ → Type ℓ} (f : (e : ℕ) → P e) (es : List ℕ) → All P es
all_of f [] = tt
all_of f (e ∷ es) = (f e, all_of f es)

pub without-All {ℓ} : (P : ℕ → Type ℓ) (e : ℕ) (es : List ℕ) → All P es → All P (without e es)
unfolding without
without-All P e [] p = p
without-All P e (x ∷ es) (p, ps) = elim (ℕ_discrete e x) [
  | yes q ↦ rw (if_pos (ℕ_discrete e x) q) ps
  | no n ↦ rw (if_neg (ℕ_discrete e x) n) (p, without-All P e es ps)
]

pub find_ref-All {ℓ} :
    {Card : Type 0} (P : ℕ → Type ℓ) (heap : ℕ → CacheEntry Card) (k : Bytes) (e : ℕ) (es : List ℕ)
    → All P es
    → find_ref heap k es ≡ some e
    → P e
unfolding find_ref
find_ref-All P heap k e [] p h = absurd (ground arith)
find_ref-All P heap k e (x ∷ es) (p, ps) h = elim (Bytes-discrete (heap x).key k) [
  | yes q ↦
      subst P
        (some-injective x e
          (sym (if_pos (Bytes-discrete (heap x).key k) q (some x) (find_ref heap k es)) ∙ h))
        p
  | no n ↦
      find_ref-All P heap k e es ps
        (sym (if_neg (Bytes-discrete (heap x).key k) n (some x) (find_ref heap k es)) ∙ h)
]

pub write-fresh {ℓ} :
    {A : Type ℓ} (n : ℕ) (a : A) (h : ℕ → A) (es : List ℕ)
    → All (λ e. e < n) es
    → All (λ e. write n a h e ≡ h e) es
write-fresh n a h [] p = tt
write-fresh n a h (e ∷ es) (p, ps) =
    (if_neg (ℕ_discrete n e) (λ q. absurd (omega arith)) a (h e), write-fresh n a h es ps)

pub length-init {ℓ} : {A : Type ℓ} (xs : List A) → length (init xs) ≡ length xs - 1
unfolding init
length-init [] = omega arith
length-init (x ∷ []) = omega arith
length-init (x ∷ y ∷ xs) = omega (arith, length-init (y ∷ xs))

-- A write at an element is not seen where no element has its key.
pub write-absent :
    {Card : Type 0} (x : ℕ) (a : CacheEntry Card) (h : ℕ → CacheEntry Card) (es : List ℕ)
    → find_ref h (h x).key es ≡ none
    → All (λ e. write x a h e ≡ h e) es
unfolding find_ref
write-absent x a h [] p = tt
write-absent x a h (e ∷ es) p =
    let other : (h e).key ≢ (h x).key = λ q. absurd (ground arith) in
    (
      if_neg (ℕ_discrete x e) (λ q. other (ap (λ j. (h j).key) (sym q))) a (h e),
      write-absent x a h es (
          sym (if_neg (Bytes-discrete (h e).key (h x).key) other (some e) (find_ref h (h x).key es))
          ∙ p),
    )

pub empty_back : (es : List ℕ) → back es ≡ none → es ≡ []
unfolding back
empty_back [] p = refl
empty_back (x ∷ []) p = absurd (none-ne-some x (sym p))
empty_back (x ∷ y ∷ es) p = absurd (ground (arith, ap length (empty_back (y ∷ es) p)))

pub length-map {ℓ κ} :
    {A : Type ℓ} {B : Type κ} (f : A → B) (xs : List A) → length (map f xs) ≡ length xs
length-map f [] = refl
length-map f (x ∷ xs) = ap suc (length-map f xs)
