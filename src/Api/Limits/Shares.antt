-- ===== src/Api/Limits/Shares.antt =====
-- internal/api/middleware.go: a client's share of the requests, over the time of a rate limiter.
use agent_dns.Api.Limits.Window.{
  bucket_of, tokens_of, stepped, swept, passes, allowed, time_of, Between, recent-lookup,
  allow-passes, bucket-request, request-Unique, request-rate, cleanup-Unique, allowed-count,
  count-le_twice,
}
use agent_dns.Api.Limits.{
  Bucket, RateLimiter, new_rate_limiter, minute, allow, cleanup, Event, after,
}
use agent_dns.Prelude.{
  ℕ, ◌+◌, ◌-◌, ◌*◌, ◌≤◌, ◌<◌, max, ltb, ◌≡◌, ◌≢◌, refl, ◌∙◌, List, [], ◌∷◌, Option, none, some,
  if_neg, Bytes, Bytes-discrete, true, Bool-cases, inl, inr, ◌⊎◌, All, arith,
}
use agent_dns.Prelude.Assoc.{lookup, Unique}

abbrev reset_of : Option Bucket → ℕ
reset_of none = 0
reset_of (some b) = b.last_reset

-- A limiter at a time that no reset is after.
pub record IsValid (rate now : ℕ) (rl : RateLimiter) : Type 0 where
  pub once : Unique Bytes-discrete rl.buckets
  pub same_rate : rl.rate ≡ rate
  pub tokens : (key : Bytes) → tokens_of (bucket_of key rl) ≤ rate - 1
  pub resets : (key : Bytes) → reset_of (bucket_of key rl) ≤ now

stepped-le :
    (now rate from : ℕ) (b : Option Bucket)
    → from ≤ now
    → tokens_of b ≤ rate - 1
    → reset_of b ≤ from
    → (tokens_of (stepped now rate b) ≤ rate - 1) × (reset_of (stepped now rate b) ≤ now)
stepped-le now rate from none h p q = (omega arith, omega arith)
stepped-le now rate from (some b) h p q = (ground arith, ground arith)

swept-le :
    (now rate from : ℕ) (b : Option Bucket)
    → from ≤ now
    → tokens_of b ≤ rate - 1
    → reset_of b ≤ from
    → (tokens_of (swept now b) ≤ rate - 1) × (reset_of (swept now b) ≤ now)
swept-le now rate from none h p q = (omega arith, omega arith)
swept-le now rate from (some b) h p q = (ground arith, ground arith)

after-IsValid :
    (rate from : ℕ) (e : Event) (rl : RateLimiter)
    → from ≤ time_of e
    → IsValid rate from rl
    → IsValid rate (time_of e) (after e rl)
unfolding after cleanup
after-IsValid rate from (Event.request now k) rl h v =
    let small = λ (key : Bytes).
      stepped-le now rate from (bucket_of key rl) h (v.tokens key) (v.resets key) in
    record {
      once = request-Unique [] now rl v.once k;
      same_rate = request-rate [] now rl v.once k ∙ v.same_rate;
      tokens = λ key.
          ground
            (arith, bucket-request key now rl v.once k, v.same_rate, (small key).0, v.tokens key);
      resets = λ key.
          ground
            (arith, bucket-request key now rl v.once k, v.same_rate, (small key).1, v.resets key);
    }
after-IsValid rate from (Event.sweep now) rl h v =
    let small =
      λ (key : Bytes). swept-le now rate from (bucket_of key rl) h (v.tokens key) (v.resets key) in
    record {
      once = cleanup-Unique now rl v.once;
      same_rate = v.same_rate;
      tokens = λ key. rw (recent-lookup now key rl.buckets v.once) (small key).0;
      resets = λ key. rw (recent-lookup now key rl.buckets v.once) (small key).1;
    }

-- The limiter after events, the first one first.
unfoldable pub run : List Event → RateLimiter → RateLimiter
unfolding after
run [] rl = rl
run (e ∷ events) rl = run events (after e rl)

run-IsValid :
    (rate from to : ℕ) (events : List Event) (rl : RateLimiter)
    → from ≤ to
    → Between from to events
    → IsValid rate from rl
    → IsValid rate to (run events rl)
unfolding run
run-IsValid rate from to [] rl h b v = record {
  once = v.once;
  same_rate = v.same_rate;
  tokens = v.tokens;
  resets = λ key. omega (arith, v.resets key);
}
run-IsValid rate from to (e ∷ events) rl h (p, q, b) v =
    run-IsValid rate (time_of e) to events (after e rl) q b (after-IsValid rate from e rl p v)

new_rate_limiter-IsValid : (rate : ℕ) → IsValid rate 0 (new_rate_limiter rate)
unfolding new_rate_limiter lookup
new_rate_limiter-IsValid rate = record {
  once = tt;
  same_rate = refl;
  tokens = λ key. omega arith;
  resets = λ key. omega arith;
}

-- Whatever requests and sweeps a limiter has seen, and whatever others come between, in a minute it lets
-- less than twice the rate of one key's requests pass: at the rate 0 at most one.
pub allowed-le :
    (rate from to : ℕ) (key : Bytes) (history events : List Event)
    → Between 0 from history
    → Between from to events
    → to ≤ from + minute
    → allowed key events (run history (new_rate_limiter rate)) ≤ (rate - 1) + max 1 rate
allowed-le rate from to key history events past h m =
    let rl = run history (new_rate_limiter rate) in
    let v =
      run-IsValid rate 0 from history (new_rate_limiter rate) (omega arith) past
        (new_rate_limiter-IsValid rate) in
    ground (
      arith,
      allowed-count key events rl v.once,
      v.tokens key,
      v.same_rate,
      count-le_twice key rl.rate from to events (bucket_of key rl) h m,
    )

swept-cases : (now : ℕ) (b : Option Bucket) → (swept now b ≡ b) ⊎ (swept now b ≡ none)
swept-cases now none = inl refl
swept-cases now (some b) = elim (Bool-cases (ltb (2 * minute) (now - b.last_reset))) [
  | inl e ↦ rw e (inr refl)
  | inr e ↦ rw e (inl refl)
]

passes-waited :
    (last now : ℕ) (b : Option Bucket)
    → reset_of b ≤ last
    → last + minute < now
    → passes now b ≡ true
passes-waited last now none h m = refl
passes-waited last now (some b) h m = ground arith

-- No request with the key.
abbrev pub IsOther : Bytes → Event → Type 0
IsOther key (Event.request now k) = k ≢ key
IsOther key (Event.sweep now) = Unit

bucket-run :
    (key : Bytes) (events : List Event) (rl : RateLimiter)
    → Unique Bytes-discrete rl.buckets
    → All (IsOther key) events
    → (bucket_of key (run events rl) ≡ bucket_of key rl) ⊎ (bucket_of key (run events rl) ≡ none)
unfolding run cleanup
bucket-run key [] rl u o = inl refl
bucket-run key (Event.request now k ∷ events) rl u (o, os) =
    let same =
      bucket-request key now rl u k
      ∙ if_neg (Bytes-discrete k key) o (stepped now rl.rate (bucket_of key rl))
          (bucket_of key rl) in
    elim (bucket-run key events (after (Event.request now k) rl) (request-Unique key now rl u k)
      os) [ inl e ↦ inl (e ∙ same) | inr e ↦ inr e ]
bucket-run key (Event.sweep now ∷ events) rl u (o, os) =
    let cleaned = recent-lookup now key rl.buckets u in
    elim (bucket-run key events (cleanup now rl) (cleanup-Unique now rl u) os) [
      | inl e ↦ elim (swept-cases now (bucket_of key rl)) [
        | inl same ↦ inl (e ∙ cleaned ∙ same)
        | inr gone ↦ inr (e ∙ cleaned ∙ gone)
      ]
      | inr e ↦ inr e
    ]

-- Whatever a limiter has seen up to some time, a client that then waits for more than a minute is let in
-- again, whatever the requests of others and the sweeps in between.
pub allow-waited :
    (rate last now : ℕ) (key : Bytes) (history events : List Event)
    → Between 0 last history
    → Between last now events
    → All (IsOther key) events
    → last + minute < now
    → (allow now key (run events (run history (new_rate_limiter rate)))).0 ≡ true
allow-waited rate last now key history events past h o m =
    let start = new_rate_limiter-IsValid rate in
    let rl = run history (new_rate_limiter rate) in
    let v = run-IsValid rate 0 last history (new_rate_limiter rate) (omega arith) past start in
    let v' = run-IsValid rate last now events rl (omega arith) h v in
    allow-passes key now (run events rl) v'.once
    ∙ passes-waited last now (bucket_of key (run events rl))
        (elim (bucket-run key events rl v.once o) [
          | inl e ↦ rw e (v.resets key)
          | inr e ↦ rw e (omega arith)
        ])
        m
