-- ===== src/Dht/Routing.antt =====
-- internal/dht/routing.go, `RoutingTable`: 256 buckets, indexed by the highest bit in which an
-- identifier differs from the local one. The mutex makes each method one step. `none` is a
-- run-time panic, as of an index out of range.
pub mod Invariant
pub mod Ranges
pub mod Contents
pub mod Closest
pub mod Recency
pub mod Sections
pub mod Interleaved
use agent_dns.Dht.Bucket
use agent_dns.Dht.Bucket.{NodeContact, KBucket, new_bucket, add_or_update, move_to_tail, remove}
use agent_dns.Dht.NodeId.{NodeId, distance, leading_zeros, less}
use agent_dns.Prelude.Sort.{sort}
use agent_dns.Prelude.{
  ℕ, ◌+◌, ◌-◌, ◌≡◌, Bool, List, [], ◌∷◌, ◌++◌, Option, none, some, Bytes-discrete, ite, length,
  get_elem?, set, take, replicate, ltb, if◌then◌else◌, ◌>>=◌,
}

abbrev pub num_buckets : ℕ
num_buckets = 256

pub record RoutingTable : Type 0 where
  pub self_id : NodeId
  pub buckets : List KBucket
  pub k : ℕ

unfoldable pub new_routing_table : NodeId → ℕ → RoutingTable
new_routing_table self_id k = record {
  self_id = self_id;
  buckets = replicate num_buckets (new_bucket k);
  k = k;
}

-- `255 - LeadingZeros`, where a negative index becomes 0.
unfoldable pub bucket_index : NodeId → NodeId → ℕ
bucket_index self_id target =
    let lz = leading_zeros (distance self_id target) in
    if ltb (num_buckets - 1) lz then 0 else num_buckets - 1 - lz

unfoldable pub add_node :
    ℕ → NodeContact → RoutingTable → Option (RoutingTable × Option NodeContact)
add_node now contact rt = ite (Bytes-discrete contact.id rt.self_id) (some (rt, none)) (do
  let idx = bucket_index rt.self_id contact.id
  b ← get_elem? rt.buckets idx
  (b', candidate) ← add_or_update now contact b
  some (record rt { buckets = set rt.buckets idx b' }, candidate))

unfoldable pub remove_node : NodeId → RoutingTable → Option RoutingTable
remove_node id rt = do
  let idx = bucket_index rt.self_id id
  b ← get_elem? rt.buckets idx
  some (record rt { buckets = set rt.buckets idx (remove id b) })

unfoldable pub evict_and_replace : ℕ → ℕ → NodeContact → RoutingTable → Option RoutingTable
evict_and_replace now idx contact rt =
    if ltb idx num_buckets
    then (do
      b ← get_elem? rt.buckets idx
      some (record rt { buckets = set rt.buckets idx (Bucket.evict now contact b) }))
    else some rt

unfoldable pub mark_seen : ℕ → NodeId → RoutingTable → Option RoutingTable
mark_seen now id rt = do
  let idx = bucket_index rt.self_id id
  b ← get_elem? rt.buckets idx
  some (record rt { buckets = set rt.buckets idx (move_to_tail now id b) })

-- The contacts of the buckets, one bucket after the other.
unfoldable pub all_entries : List KBucket → List NodeContact
all_entries [] = []
all_entries (b ∷ bs) = b.entries ++ all_entries bs

unfoldable pub all_nodes : RoutingTable → List NodeContact
unfolding all_entries
all_nodes rt = all_entries rt.buckets

-- The order of `sort.Slice`: the XOR distance to the target.
abbrev pub closer : NodeId → NodeContact → NodeContact → Bool
closer target x y = less (distance x.id target) (distance y.id target)

-- `all[:count]` where there are more.
abbrev pub first : ℕ → List NodeContact → List NodeContact
first count all = if ltb count (length all) then take count all else all

unfoldable pub find_closest : NodeId → ℕ → RoutingTable → List NodeContact
unfolding all_nodes sort
find_closest target count rt = first count (sort (closer target) (all_nodes rt))

unfoldable pub total : List KBucket → ℕ → ℕ
total [] n = n
total (b ∷ bs) n = total bs (n + length b.entries)

unfoldable pub size : RoutingTable → ℕ
unfolding total
size rt = total rt.buckets 0
