-- ===== src/Dht/Bucket.antt =====
-- internal/dht/routing.go, `KBucket`: at most `k` contacts, least recently seen first. A method
-- takes the Unix time that `time.Now` gives it as `now` and returns the new bucket; `none` is a
-- run-time panic.
pub mod Extract
pub mod Invariant
pub mod Contents
pub mod Recency
pub mod Bounds
use agent_dns.Dht.NodeId.{NodeId}
use agent_dns.Prelude.{
  ℕ, ◌≡◌, Bool, true, false, List, [], ◌∷◌, ◌++◌, Option, none, some, Bytes, Bytes-discrete, ite,
  length, leb, if◌then◌else◌,
}

-- internal/dht/types.go, `NodeContact`.
pub record NodeContact : Type 0 where
  pub id : NodeId
  pub address : Bytes
  pub last_seen : ℕ

pub record KBucket : Type 0 where
  pub entries : List NodeContact
  pub k : ℕ

abbrev pub new_bucket : ℕ → KBucket
new_bucket k = record { entries = []; k = k }

unfoldable pub is_full : KBucket → Bool
is_full b = leb b.k (length b.entries)

unfoldable pub contains_in : NodeId → List NodeContact → Bool
contains_in id [] = false
contains_in id (e ∷ es) = ite (Bytes-discrete e.id id) true (contains_in id es)

unfoldable pub contains : KBucket → NodeId → Bool
unfolding contains_in
contains b id = contains_in id b.entries

unfoldable pub get_in : NodeId → List NodeContact → Option NodeContact
get_in id [] = none
get_in id (e ∷ es) = ite (Bytes-discrete e.id id) (some e) (get_in id es)

unfoldable pub get : KBucket → NodeId → Option NodeContact
unfolding get_in
get b id = get_in id b.entries

-- The search of `AddOrUpdate`, `MoveToTail` and `Remove`: the first entry with the identifier, and
-- the entries without it, `append(entries[:i], entries[i+1:]...)`.
abbrev pub skip :
    NodeContact → Option (NodeContact × List NodeContact) → Option (NodeContact × List NodeContact)
skip e none = none
skip e (some (x, rest)) = some (x, e ∷ rest)

unfoldable pub extract : NodeId → List NodeContact → Option (NodeContact × List NodeContact)
extract id [] = none
extract id (e ∷ es) = ite (Bytes-discrete e.id id) (some (e, es)) (skip e (extract id es))

abbrev pub seen_at : ℕ → NodeContact → NodeContact
seen_at now c = record c { last_seen = now }

-- The bucket is full: the head is the candidate, and there is none at capacity 0.
abbrev pub oldest : KBucket → List NodeContact → Option (KBucket × Option NodeContact)
oldest b [] = none
oldest b (e ∷ es) = some (b, some e)

unfoldable pub add_or_update : ℕ → NodeContact → KBucket → Option (KBucket × Option NodeContact)
unfolding extract is_full
add_or_update now contact b = elim (extract contact.id b.entries) [
  | some (_, rest) ↦ some (record b { entries = rest ++ seen_at now contact ∷ [] }, none)
  | none ↦
      if is_full b
      then oldest b b.entries
      else some (record b { entries = b.entries ++ seen_at now contact ∷ [] }, none)
]

abbrev pub tail : List NodeContact → List NodeContact
tail [] = []
tail (e ∷ es) = es

unfoldable pub evict : ℕ → NodeContact → KBucket → KBucket
evict now contact b = record b { entries = tail b.entries ++ seen_at now contact ∷ [] }

unfoldable pub move_to_tail : ℕ → NodeId → KBucket → KBucket
unfolding extract
move_to_tail now id b = elim (extract id b.entries) [
  | some (e, rest) ↦ record b { entries = rest ++ seen_at now e ∷ [] }
  | none ↦ b
]

unfoldable pub remove : NodeId → KBucket → KBucket
unfolding extract
remove id b = elim (extract id b.entries) [
  | some (_, rest) ↦ record b { entries = rest }
  | none ↦ b
]
