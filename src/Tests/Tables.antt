-- ===== src/Tests/Tables.antt =====
-- Runs on identifiers, buckets and routing tables.
use agent_dns.Dht.Bucket.{NodeContact, KBucket, seen_at}
use agent_dns.Dht.NodeId.{NodeId, IsNodeId}
use agent_dns.Dht.Routing.Closest.{find_closest_lem, metric}
use agent_dns.Dht.Routing.Contents.{Outcome}
use agent_dns.Dht.Routing.Recency.{
  IsRecent, IsRecent-later, Aged, add_node-Aged, new_routing_table-IsRecent,
}
use agent_dns.Dht.Routing.Sections.{IsSound, IsReady, start, more, adds}
use agent_dns.Dht.Routing.Interleaved.{interleaved_lem}
use agent_dns.Dht.Routing.Invariant.{IsValid, new_routing_table-IsValid, add_node-IsValid}
use agent_dns.Dht.Routing.{
  RoutingTable, bucket_index, new_routing_table, add_node, find_closest, all_nodes, size,
}
use agent_dns.Prelude.Sort.{IsSorted}
use mathlib.Core.List.{Perm}
use agent_dns.Prelude.{
  Bytes-discrete, [], refl, ℕ, zero, suc, ◌≤◌, ◌<◌, min, ◌≡◌, sym, subst, List, ◌∷◌, ◌++◌, Option,
  none, some, AreBytes, All, codes, length, replicate, arith,
}

-- The identifier with the given first byte, followed by zeros.
abbrev pub id_of : ℕ → NodeId
id_of n = n ∷ replicate 31 0

replicate-AreBytes : (n : ℕ) → AreBytes (replicate n 0)
replicate-AreBytes zero = tt
replicate-AreBytes (suc n) = (omega arith, replicate-AreBytes n)

pub id_of-IsNodeId : (n : ℕ) → n < 256 → IsNodeId (id_of n)
id_of-IsNodeId n h = record { size = ground arith; bytes = (h, replicate-AreBytes 31) }

abbrev pub contact : ℕ → NodeContact
contact n = record { id = id_of n; address = codes "host:4001"; last_seen = 0 }

abbrev pub left : RoutingTable → Option (RoutingTable × Option NodeContact) → RoutingTable
left rt none = rt
left rt (some (rt', candidate)) = rt'

-- The table of node 1 after it has met nodes 2 and 7.
abbrev empty : RoutingTable
empty = new_routing_table (id_of 1) 20

abbrev one : RoutingTable
one = left empty (add_node 5 (contact 2) empty)

abbrev two : RoutingTable
two = left one (add_node 6 (contact 7) one)

pub left-IsValid :
    (now : ℕ) (c : NodeContact) (rt : RoutingTable)
    → IsNodeId c.id
    → IsValid rt
    → IsValid (left rt (add_node now c rt))
left-IsValid now c rt h v =
    let (rt', candidate, e, v', _) = add_node-IsValid v now c h in
    subst (λ o. IsValid (left rt o)) (sym e) v'

empty-IsValid : IsValid empty
empty-IsValid =
    new_routing_table-IsValid (id_of 1) 20 (id_of-IsNodeId 1 (omega arith)) (omega arith)

two-IsValid : IsValid two
two-IsValid =
    left-IsValid 6 (contact 7) one (id_of-IsNodeId 7 (omega arith))
      (left-IsValid 5 (contact 2) empty (id_of-IsNodeId 2 (omega arith)) empty-IsValid)

find_closest_lem_example :
    (rest : List NodeContact) × Perm (find_closest (id_of 3) 1 two ++ rest) (all_nodes two)
    × IsSorted (metric (id_of 3)) (find_closest (id_of 3) 1 two)
    × All
        (λ x. All (λ y. metric (id_of 3) x ≤ metric (id_of 3) y) rest)
        (find_closest (id_of 3) 1 two)
    × (length (find_closest (id_of 3) 1 two) ≡ min 1 (size two))
find_closest_lem_example =
    find_closest_lem two (id_of 3) 1 two-IsValid (id_of-IsNodeId 3 (omega arith))

add_node-IsValid_example :
    (rt' : RoutingTable) × (candidate : Option NodeContact) × (add_node 8 (contact 6) two
      ≡ some (rt', candidate))
    × IsValid rt'
    × (rt'.self_id ≡ two.self_id)
add_node-IsValid_example =
    add_node-IsValid two-IsValid 8 (contact 6) (id_of-IsNodeId 6 (omega arith))

left-IsRecent :
    (now : ℕ) (c : NodeContact) (rt : RoutingTable)
    → IsNodeId c.id
    → IsValid rt
    → IsRecent now rt
    → IsRecent now (left rt (add_node now c rt))
left-IsRecent now c rt h v r =
    let (rt', candidate, e, v', _) = add_node-IsValid v now c h in
    subst (λ o. IsRecent now (left rt o)) (sym e)
      ((add_node-Aged now c rt v r).1.recent rt' candidate e)

pub met-IsRecent :
    (self now k n : ℕ)
    → self < 256
    → n < 256
    → 0 < k
    → IsRecent now (
        left
          (new_routing_table (id_of self) k)
          (add_node now (contact n) (new_routing_table (id_of self) k)))
met-IsRecent self now k n s h p =
    left-IsRecent now (contact n) (new_routing_table (id_of self) k) (id_of-IsNodeId n h)
      (new_routing_table-IsValid (id_of self) k (id_of-IsNodeId self s) p)
      (new_routing_table-IsRecent now (id_of self) k)

one-IsValid : IsValid one
one-IsValid = left-IsValid 5 (contact 2) empty (id_of-IsNodeId 2 (omega arith)) empty-IsValid

two-IsRecent : IsRecent 8 two
two-IsRecent = IsRecent-later 6 8 two (omega arith) (
    left-IsRecent 6 (contact 7) one (id_of-IsNodeId 7 (omega arith)) one-IsValid (
      IsRecent-later 5 6 one (omega arith)
        (met-IsRecent 1 5 20 2 (omega arith) (omega arith) (omega arith))))

add_node-Aged_example : Outcome 8 (contact 6) two × Aged 8 (contact 6) two
add_node-Aged_example = add_node-Aged 8 (contact 6) two two-IsValid two-IsRecent

met : add_node 5 (contact 2) empty ≡ some (one, none)
unfolding new_routing_table add_node Bytes-discrete bucket_index agent_dns.Dht.NodeId.leading_zeros
    agent_dns.Dht.NodeId.distance agent_dns.Dht.Bucket.add_or_update
met = refl

interleaved_lem_example : IsSound one × IsReady one
interleaved_lem_example =
    interleaved_lem (id_of 1) 20 one (id_of-IsNodeId 1 (omega arith)) (omega arith)
      (more start (adds 5 (contact 2) one none (id_of-IsNodeId 2 (omega arith)) met))

-- A table of node 1 with a full bucket of two.
abbrev four : RoutingTable
four = left (new_routing_table (id_of 1) 2) (add_node 5 (contact 4) (new_routing_table (id_of 1) 2))

abbrev full : RoutingTable
full = left four (add_node 6 (contact 5) four)

abbrev full_bucket : KBucket
full_bucket = record { entries = seen_at 5 (contact 4) ∷ seen_at 6 (contact 5) ∷ []; k = 2 }
