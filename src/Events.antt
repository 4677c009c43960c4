-- ===== src/Events.antt =====
-- internal/events/bus.go: the event bus. A channel is a number; the heap gives what it holds and whether it
-- is closed. Another process reads from its front.
pub mod Channels
pub mod Served
pub mod Delivery
use agent_dns.Prelude.{
  ℕ, zero, suc, ◌+◌, ◌≡◌, ◌≢◌, List, [], ◌∷◌, ◌++◌, Option, none, some, ite, Bool, true, false,
  Bytes, ℕ_discrete, length, drop, ltb, if◌then◌else◌,
}
use agent_dns.Prelude.Assoc.{lookup, insert, erase}
use mathlib.Core.Option.{map}

pub record Event (Data : Type 0) : Type 0 where
  pub kind : Bytes
  pub timestamp : Bytes
  pub payload : Data

-- A buffered `chan Event`.
pub record Channel (Data : Type 0) : Type 0 where
  pub buffer : List (Event Data)
  pub closed : Bool

pub record Bus (Data : Type 0) : Type 0 where
  pub subscribers : List {0} (ℕ × Unit)
  pub channels : ℕ → Channel Data
  pub next : ℕ

abbrev pub capacity : ℕ
capacity = 256

module _ {Data : Type 0} where
  abbrev pub empty : Channel Data
  empty = record { buffer = []; closed = false }

  unfoldable pub put : ℕ → Channel Data → (ℕ → Channel Data) → ℕ → Channel Data
  put ch x channels c = ite (ℕ_discrete ch c) x (channels c)

  unfoldable pub new_bus : Bus Data
  new_bus = record { subscribers = []; channels = λ _. empty; next = 0 }

  -- The new channel is `next`.
  unfoldable pub subscribe : Bus Data → ℕ × Bus Data
  unfolding put insert
  subscribe b = (
    b.next,
    record {
      subscribers = insert ℕ_discrete b.next tt b.subscribers;
      channels = put b.next empty b.channels;
      next = suc b.next;
    },
  )

  -- Closing a closed channel panics.
  unfoldable pub unsubscribe : ℕ → Bus Data → Option (Bus Data)
  unfolding put erase
  unsubscribe ch b =
      if (b.channels ch).closed
      then none
      else some (record b {
        subscribers = erase ℕ_discrete ch b.subscribers;
        channels = put ch (record (b.channels ch) { closed = true }) b.channels;
      })

  -- The `select`, for an open channel.
  unfoldable pub offered : Event Data → Channel Data → Channel Data
  offered e c =
      if ltb (length c.buffer) capacity then record c { buffer = c.buffer ++ (e ∷ []) } else c

  -- The loop over the subscribers; a send on a closed channel panics.
  unfoldable pub send_all :
      Event Data → List {0} (ℕ × Unit) → (ℕ → Channel Data) → Option (ℕ → Channel Data)
  unfolding offered put
  send_all e [] channels = some channels
  send_all e ((ch, _) ∷ subscribers) channels =
      let rest = send_all e subscribers (put ch (offered e (channels ch)) channels) in
      if (channels ch).closed then none else rest

  unfoldable pub publish : Bytes → Bytes → Data → Bus Data → Option (Bus Data)
  unfolding send_all
  publish kind now payload b =
      map (λ channels. record b { channels = channels })
        (send_all (record { kind = kind; timestamp = now; payload = payload }) b.subscribers
          b.channels)

  abbrev pub front : List (Event Data) → Option (Event Data)
  front [] = none
  front (e ∷ es) = some e

  -- A read by the process that has the channel; without an event it waits, which is `none`.
  unfoldable pub receive : ℕ → Bus Data → Option (Event Data) × Bus Data
  unfolding put
  receive ch b =
      let c = b.channels ch in
      (
        front c.buffer,
        record b { channels = put ch (record c { buffer = drop 1 c.buffer }) b.channels },
      )
