-- ===== src/Tests/Events.antt =====
-- A run of the event bus.
use agent_dns.Events.{
  Event, Bus, put, new_bus, subscribe, offered, send_all, publish, receive, capacity,
}
use agent_dns.Events.Channels.{new_bus-IsValid}
use agent_dns.Events.Delivery.{Run, begin, publishes, takes, delivered_lem}
use agent_dns.Prelude.{ℕ, ◌≡◌, ◌≤◌, refl, [], ◌∷◌, ◌++◌, some, Bytes, codes, ℕ_discrete, length}
use agent_dns.Prelude.Assoc.{insert}
use mathlib.Core.List.{Sublistᴰ}

abbrev event : ℕ → Event ℕ
event n = record {
  kind = codes "peer_connected";
  timestamp = codes "2026-01-01T00:00:00Z";
  payload = n;
}

abbrev bus : Bus ℕ
bus = (subscribe new_bus).1

abbrev told : Event ℕ → Bus ℕ → Bus ℕ
told e b = record b { channels = put 0 (offered e (b.channels 0)) b.channels }

abbrev end : Bus ℕ
end = told (event 8) (receive 0 (told (event 7) bus)).1

run : Run 0 bus (event 7 ∷ event 8 ∷ []) (event 7 ∷ []) end
unfolding subscribe new_bus publish send_all receive put offered insert ℕ_discrete
run =
    publishes (event 8) end
      (takes (event 7) (publishes (event 7) (told (event 7) bus) begin refl) refl) refl

delivered_lem_example :
    (let all = (event 7 ∷ []) ++ (end.channels (subscribe (new_bus {Data = ℕ})).0).buffer in
      Sublistᴰ all (event 7 ∷ event 8 ∷ [])
      × (length (event 7 ∷ event 8 ∷ []) ≤ capacity → all ≡ event 7 ∷ event 8 ∷ []))
    × ((kind now : Bytes) (payload : ℕ) → (v : Bus ℕ) × (publish kind now payload end ≡ some v))
unfolding subscribe new_bus
delivered_lem_example =
    delivered_lem new_bus end (event 7 ∷ event 8 ∷ []) (event 7 ∷ []) new_bus-IsValid run
