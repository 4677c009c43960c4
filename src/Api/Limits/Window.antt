-- ===== src/Api/Limits/Window.antt =====
-- internal/api/middleware.go: how many requests a rate limiter lets pass.
use agent_dns.Api.Limits.{Bucket, RateLimiter, minute, fresh, allow, recent, cleanup, Event, after}
use agent_dns.Prelude.{
  ℕ, ◌+◌, ◌-◌, ◌*◌, ◌≤◌, max, ltb, ◌≡◌, refl, ◌∙◌, List, [], ◌∷◌, Option, none, some, ite, Bytes,
  Bytes-discrete, if◌then◌else◌, Bool, true, false, Bool-cases, inl, inr, Option-cases, arith,
}
use agent_dns.Prelude.Assoc.{lookup, lookup-insert, Unique, insert-Unique}

abbrev pub bucket_of : Bytes → RateLimiter → Option Bucket
bucket_of key rl = lookup Bytes-discrete key rl.buckets

abbrev pub tokens_of : Option Bucket → ℕ
tokens_of none = 0
tokens_of (some b) = b.tokens

abbrev pub bit : Bool → ℕ
bit true = 1
bit false = 0

-- How many of the requests with the key are allowed.
unfoldable pub allowed : Bytes → List Event → RateLimiter → ℕ
unfolding allow after
allowed key [] rl = 0
allowed key (Event.request now k ∷ events) rl =
    let rest = allowed key events (after (Event.request now k) rl) in
    ite (Bytes-discrete k key) (bit (allow now key rl).0 + rest) rest
allowed key (Event.sweep now ∷ events) rl = allowed key events (after (Event.sweep now) rl)

abbrev pub time_of : Event → ℕ
time_of (Event.request now k) = now
time_of (Event.sweep now) = now

-- The events happen in order, from one time on and up to another.
abbrev pub Between : ℕ → ℕ → List Event → Type 0
Between from to [] = Unit
Between from to (e ∷ events) = (from ≤ time_of e) × (time_of e ≤ to) × Between (time_of e) to events

-- One key's bucket by itself: what a request and a sweep make of it, and whether a request passes.
abbrev pub stepped : ℕ → ℕ → Option Bucket → Option Bucket
stepped now rate none = some (record { tokens = rate - 1; last_reset = now })
stepped now rate (some b) =
    if ltb minute (now - b.last_reset)
    then some (record { tokens = rate - 1; last_reset = now })
    else if ltb 0 b.tokens
    then some (record b { tokens = b.tokens - 1 })
    else some b

abbrev pub swept : ℕ → Option Bucket → Option Bucket
swept now none = none
swept now (some b) = if ltb (2 * minute) (now - b.last_reset) then none else some b

abbrev pub passes : ℕ → Option Bucket → Bool
passes now none = true
passes now (some b) = if ltb minute (now - b.last_reset) then true else ltb 0 b.tokens

pub count : Bytes → ℕ → List Event → Option Bucket → ℕ
count key rate [] b = 0
count key rate (Event.request now k ∷ events) b =
    ite (Bytes-discrete k key) (bit (passes now b) + count key rate events (stepped now rate b))
      (count key rate events b)
count key rate (Event.sweep now ∷ events) b = count key rate events (swept now b)

pub recent-lookup :
    (now : ℕ) (key : Bytes) (buckets : List (Bytes × Bucket))
    → Unique Bytes-discrete buckets
    → lookup Bytes-discrete key (recent now buckets) ≡ swept now (lookup Bytes-discrete key buckets)
unfolding recent lookup
recent-lookup now key [] u = refl
recent-lookup now key ((k, b) ∷ buckets) (new, u) =
    ground (arith, recent-lookup now key buckets u, new)

recent-Unique :
    (now : ℕ) (buckets : List (Bytes × Bucket))
    → Unique Bytes-discrete buckets
    → Unique Bytes-discrete (recent now buckets)
unfolding recent
recent-Unique now [] u = tt
recent-Unique now ((k, b) ∷ buckets) (new, u) =
    elim (Bool-cases (ltb (2 * minute) (now - b.last_reset))) [
      | inl e ↦ rw e (recent-Unique now buckets u)
      | inr e ↦
          rw e (ground (arith, recent-lookup now k buckets u, new), recent-Unique now buckets u)
    ]

module _ (key : Bytes) (now : ℕ) (rl : RateLimiter) (u : Unique Bytes-discrete rl.buckets) where
  pub allow-passes : (allow now key rl).0 ≡ passes now (bucket_of key rl)
  unfolding allow
  allow-passes = elim (Option-cases (bucket_of key rl)) [
    | inl e ↦ rw e refl
    | inr (b, e) ↦ ground (arith, e)
  ]

  pub bucket-request :
      (k : Bytes)
      → bucket_of key (after (Event.request now k) rl)
        ≡ ite (Bytes-discrete k key) (stepped now rl.rate (bucket_of key rl)) (bucket_of key rl)
  unfolding after allow
  bucket-request k =
      let spent : Bucket → Bucket = λ b. record b { tokens = b.tokens - 1 } in
      elim (Option-cases (bucket_of k rl)) [
        | inl e ↦
            rw (e, after)
              (ground (arith, e, lookup-insert Bytes-discrete k key (fresh now rl) rl.buckets))
        | inr (b, e) ↦
            rw (e, after)
              (ground (
                arith,
                e,
                lookup-insert Bytes-discrete k key (fresh now rl) rl.buckets,
                lookup-insert Bytes-discrete k key (spent b) rl.buckets,
              ))
      ]

  pub request-Unique : (k : Bytes) → Unique Bytes-discrete (after (Event.request now k) rl).buckets
  unfolding after allow
  request-Unique k = elim (Option-cases (bucket_of k rl)) [
    | inl e ↦ rw (e, after) (insert-Unique Bytes-discrete k (fresh now rl) rl.buckets u)
    | inr (b, e) ↦ elim (Bool-cases (ltb minute (now - b.last_reset))) [
      | inl late ↦ rw (e, late, after) (insert-Unique Bytes-discrete k (fresh now rl) rl.buckets u)
      | inr early ↦ elim (Bool-cases (ltb 0 b.tokens)) [
        | inl some_left ↦
            rw (e, early, some_left, after)
              (insert-Unique Bytes-discrete k (record b { tokens = b.tokens - 1 }) rl.buckets u)
        | inr none_left ↦ rw (e, early, none_left, after) u
      ]
    ]
  ]

  pub request-rate : (k : Bytes) → (after (Event.request now k) rl).rate ≡ rl.rate
  unfolding after allow
  request-rate k = elim (Option-cases (bucket_of k rl)) [
    | inl e ↦ rw (e, after) refl
    | inr (b, e) ↦ rw (e, after) (ground arith)
  ]

pub cleanup-Unique :
    (now : ℕ) (rl : RateLimiter)
    → Unique Bytes-discrete rl.buckets
    → Unique Bytes-discrete (cleanup now rl).buckets
unfolding cleanup
cleanup-Unique now rl u = recent-Unique now rl.buckets u

-- The requests with a key depend on that key's bucket only.
pub allowed-count :
    (key : Bytes) (events : List Event) (rl : RateLimiter)
    → Unique Bytes-discrete rl.buckets
    → allowed key events rl ≡ count key rl.rate events (bucket_of key rl)
unfolding allowed count cleanup
allowed-count key [] rl u = refl
allowed-count key (Event.request now k ∷ events) rl u =
    let next = after (Event.request now k) rl in
    let rest = allowed-count key events next (request-Unique key now rl u k) in
    ground (
      arith,
      rest,
      request-rate k now rl u k,
      bucket-request key now rl u k,
      allow-passes key now rl u,
    )
allowed-count key (Event.sweep now ∷ events) rl u =
    allowed-count key events (cleanup now rl) (cleanup-Unique now rl u)
    ∙ (λ i. count key rl.rate events (recent-lookup now key rl.buckets u i))

-- Within a minute of its reset a bucket lets no more pass than it has tokens.
count-le_tokens :
    (key : Bytes) (rate from to : ℕ) (events : List Event) (b : Bucket)
    → Between from to events
    → to ≤ b.last_reset + minute
    → count key rate events (some b) ≤ b.tokens
unfolding count
count-le_tokens key rate from to [] b h m = omega arith
count-le_tokens key rate from to (Event.request now k ∷ events) b (h, h', t) m = ground (
  arith,
  count-le_tokens key rate now to events b t m,
  count-le_tokens key rate now to events (record b { tokens = b.tokens - 1 }) t m,
)
count-le_tokens key rate from to (Event.sweep now ∷ events) b (h, h', t) m =
    ground (arith, count-le_tokens key rate now to events b t m)

pub count-le_twice :
    (key : Bytes) (rate from to : ℕ) (events : List Event) (b : Option Bucket)
    → Between from to events
    → to ≤ from + minute
    → count key rate events b ≤ tokens_of b + max 1 rate
unfolding count
count-le_twice key rate from to [] b h m = omega arith
count-le_twice key rate from to (Event.request now k ∷ events) none (h, h', t) m =
    let new : Bucket = record { tokens = rate - 1; last_reset = now } in
    ground (
      arith,
      count-le_tokens key rate now to events new t (omega arith),
      count-le_twice key rate now to events none t (omega arith),
    )
count-le_twice key rate from to (Event.request now k ∷ events) (some b) (h, h', t) m =
    let new : Bucket = record { tokens = rate - 1; last_reset = now } in
    let spent : Bucket = record b { tokens = b.tokens - 1 } in
    ground (
      arith,
      count-le_tokens key rate now to events new t (omega arith),
      count-le_twice key rate now to events (some b) t (omega arith),
      count-le_twice key rate now to events (some spent) t (omega arith),
    )
count-le_twice key rate from to (Event.sweep now ∷ events) none (h, h', t) m =
    count-le_twice key rate now to events none t (omega arith)
count-le_twice key rate from to (Event.sweep now ∷ events) (some b) (h, h', t) m = ground (
  arith,
  count-le_twice key rate now to events none t (omega arith),
  count-le_twice key rate now to events (some b) t (omega arith),
)
