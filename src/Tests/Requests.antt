-- ===== src/Tests/Requests.antt =====
-- Runs on the middleware.
use agent_dns.Api.Limits.{Event, new_rate_limiter, minute, allow, after, cleanup, recent}
use agent_dns.Api.Limits.Shares.{run, allowed-le, allow-waited}
use agent_dns.Api.Limits.Window.{allowed}
use agent_dns.Prelude.{
  ◌+◌, ◌*◌, ◌-◌, ◌≤◌, ◌≡◌, ◌≢◌, max, refl, true, List, [], ◌∷◌, Bytes, Bytes-discrete, ℕ_discrete,
  codes, arith,
}
use agent_dns.Prelude.Assoc.{lookup, insert}

abbrev a : Bytes
a = codes "10.0.0.1"

abbrev b : Bytes
b = codes "10.0.0.2"

abbrev history : List Event
history = Event.request 100 a ∷ Event.request 200 b ∷ []

-- Three requests in a minute, across a reset, at the rate 2.
abbrev events : List Event
events =
    Event.request minute a
    ∷ Event.request (minute + 101) a
    ∷ Event.sweep (minute + 102)
    ∷ Event.request (minute + 103) a
    ∷ []

allowed-le_example : allowed a events (run history (new_rate_limiter 2)) ≤ (2 - 1) + max 1 2
allowed-le_example =
    allowed-le 2 minute (2 * minute) a history events (omega arith) (omega arith) (omega arith)

all_three : allowed a events (run history (new_rate_limiter 2)) ≡ 3
unfolding allowed run after allow cleanup recent new_rate_limiter lookup insert Bytes-discrete
    ℕ_discrete
all_three = refl

other : b ≢ a
other e = absurd (ground arith)

allow-waited_example :
    (allow
      (2 * minute + 300)
      a
      (run (Event.request 400 b ∷ []) (run history (new_rate_limiter 0)))).0
    ≡ true
allow-waited_example =
    allow-waited 0 300 (2 * minute + 300) a history (Event.request 400 b ∷ []) (omega arith)
      (omega arith) (other, tt) (omega arith)
