-- ===== src/Tests/Messages.antt =====
-- Runs on frames.
use agent_dns.Mesh.Protocol.{Envelope, Result, max_message_size, read_message}
use agent_dns.Mesh.Protocol.Frames.{frame, send_all, receive, all_received, receive-send_all}
use agent_dns.Mesh.Protocol.Received.{read_message-frame_only}
use agent_dns.Prelude.{
  ◌≤◌, ◌≡◌, refl, [], ◌∷◌, ◌++◌, Option, none, some, Bytes, codes, length, take, drop, arith,
}

-- A text with its type's length in front.
abbrev marshal : Envelope → Option Bytes
marshal env = some (length env.message_type ∷ env.message_type ++ env.payload)

abbrev unmarshal : Bytes → Option Envelope
unmarshal [] = none
unmarshal (n ∷ s) = some (record { message_type = take n s; payload = drop n s })

abbrev hello : Envelope
hello = record { message_type = codes "hello"; payload = codes "{}" }

abbrev gossip : Envelope
gossip = record { message_type = codes "gossip"; payload = codes "[1]" }

receive-send_all_example :
    (frames : Bytes) × (send_all marshal (hello ∷ gossip ∷ []) [] ≡ (none, [] ++ frames))
    × ((rest : Bytes)
        → receive unmarshal 2 (frames ++ rest) ≡ (all_received (hello ∷ gossip ∷ []), rest))
receive-send_all_example =
    receive-send_all marshal unmarshal (hello ∷ gossip ∷ []) []
      ((_, refl, omega arith, refl), ((_, refl, omega arith, refl), tt))

-- The frame of a greeting, and bytes behind it.
abbrev stream : Bytes
stream = 0 ∷ 0 ∷ 0 ∷ 8 ∷ 5 ∷ codes "hello{}more"

greeting : read_message unmarshal stream ≡ (Result.received hello, codes "more")
unfolding read_message
greeting = refl

read_message-frame_only_example :
    (s : Bytes) × (stream ≡ frame s ++ codes "more")
    × (unmarshal s ≡ some hello)
    × (length s ≤ max_message_size)
read_message-frame_only_example =
    read_message-frame_only unmarshal stream (codes "more") hello (omega arith) greeting
