-- ===== src/Api/Limits.antt =====
-- internal/api/middleware.go: `RateLimiter`. A time is in nanoseconds. `Allow` reads the clock twice in one
-- call, here once. Tokens that the code lets fall to -1, at the rate 0, are 0 here; both refuse.
pub mod Window
pub mod Shares
use agent_dns.Prelude.{
  ℕ, zero, suc, ◌+◌, ◌-◌, ◌*◌, ltb, List, [], ◌∷◌, Option, none, some, Bytes, Bytes-discrete,
  if◌then◌else◌, Bool, true, false,
}
use agent_dns.Prelude.Assoc.{lookup, insert}

pub record Bucket : Type 0 where
  pub tokens : ℕ
  pub last_reset : ℕ

pub record RateLimiter : Type 0 where
  pub buckets : List (Bytes × Bucket)
  pub rate : ℕ

unfoldable pub new_rate_limiter : ℕ → RateLimiter
new_rate_limiter rate_per_minute = record { buckets = []; rate = rate_per_minute }

-- `time.Minute`
abbrev pub minute : ℕ
minute = 60000000000

abbrev pub fresh : ℕ → RateLimiter → Bucket
fresh now rl = record { tokens = rl.rate - 1; last_reset = now }

abbrev pub put_bucket : Bytes → Bucket → RateLimiter → RateLimiter
put_bucket key b rl = record rl { buckets = insert Bytes-discrete key b rl.buckets }

abbrev pub allow_found : ℕ → Bytes → Option Bucket → RateLimiter → Bool × RateLimiter
allow_found now key none rl = (true, put_bucket key (fresh now rl) rl)
allow_found now key (some b) rl =
    if ltb minute (now - b.last_reset)
    then (true, put_bucket key (fresh now rl) rl)
    else if ltb 0 b.tokens
    then (true, put_bucket key (record b { tokens = b.tokens - 1 }) rl)
    else (false, rl)

unfoldable pub allow : ℕ → Bytes → RateLimiter → Bool × RateLimiter
unfolding lookup insert
allow now key rl = allow_found now key (lookup Bytes-discrete key rl.buckets) rl

-- The buckets that a round of `cleanupLoop` keeps.
unfoldable pub recent : ℕ → List (Bytes × Bucket) → List (Bytes × Bucket)
recent now [] = []
recent now ((key, b) ∷ buckets) =
    let rest = recent now buckets in
    if ltb (2 * minute) (now - b.last_reset) then rest else (key, b) ∷ rest

unfoldable pub cleanup : ℕ → RateLimiter → RateLimiter
unfolding recent
cleanup now rl = record rl { buckets = recent now rl.buckets }

-- What happens to a limiter: a request with a key, or a round of the cleanup.
pub data Event : Type 0 where
  request : ℕ → Bytes → Event
  sweep : ℕ → Event

unfoldable pub after : Event → RateLimiter → RateLimiter
unfolding allow cleanup
after (Event.request now key) rl = (allow now key rl).1
after (Event.sweep now) rl = cleanup now rl
