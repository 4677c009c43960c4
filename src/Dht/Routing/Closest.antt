-- ===== src/Dht/Routing/Closest.antt =====
-- `FindClosest` on a valid table.
use agent_dns.Dht.Bucket.Extract.{Distinct}
use agent_dns.Dht.Bucket.{NodeContact, KBucket}
use agent_dns.Dht.NodeId.Metric.{distance-IsNodeId}
use agent_dns.Dht.NodeId.Value.{value, less-value}
use agent_dns.Dht.NodeId.{NodeId, IsNodeId, distance}
use agent_dns.Dht.Routing.Invariant.{IsValid, Slots}
use agent_dns.Dht.Routing.{
  RoutingTable, bucket_index, all_entries, all_nodes, closer, first, find_closest, total, size,
}
use agent_dns.Prelude.Sort.{sort, sort-perm, length-sort, IsSorted, sort-IsSorted}
use agent_dns.Prelude.{
  ℕ, ◌+◌, ◌*◌, ◌≤◌, ◌≡◌, ◌≢◌, ap, List, [], ◌∷◌, ◌++◌, length, drop, All, All-append, All-imp, ltb,
  arith, min, length-append, length-take, Bool-cases, inl, inr, append-nil, take-append-drop,
  All-split,
}
use mathlib.Core.List.{Perm}

-- The distance to the target, as a number.
abbrev pub metric : NodeId → NodeContact → ℕ
metric target c = value (distance c.id target)

pub entries-IsNodeId :
    (self_id : NodeId) (k i : ℕ) (bs : List KBucket)
    → Slots self_id k i bs
    → All (λ c. IsNodeId c.id) (all_entries bs)
unfolding all_entries
entries-IsNodeId self_id k i [] h = tt
entries-IsNodeId self_id k i (b ∷ bs) (s, h) =
    All-append (λ c. IsNodeId c.id) b.entries (all_entries bs)
      (All-imp (λ c p. p.0) b.entries s.valid.belong) (entries-IsNodeId self_id k (i + 1) bs h)

-- The contacts of the buckets from index `i` have indices from `i`.
entries_above :
    (self_id : NodeId) (k i n : ℕ) (bs : List KBucket)
    → n ≤ i
    → Slots self_id k i bs
    → All (λ c. n ≤ bucket_index self_id c.id) (all_entries bs)
unfolding all_entries
entries_above self_id k i n [] le h = tt
entries_above self_id k i n (b ∷ bs) le (s, h) =
    All-append (λ c. n ≤ bucket_index self_id c.id) b.entries (all_entries bs)
      (All-imp (λ c p. omega (arith, p.2)) b.entries s.valid.belong)
      (entries_above self_id k (i + 1) n bs (omega arith) h)

Distinct-append :
    (f : NodeContact → ℕ) (n : ℕ) (xs ys : List NodeContact)
    → ((x y : NodeContact) → x.id ≡ y.id → f x ≡ f y)
    → Distinct xs
    → Distinct ys
    → All (λ c. f c ≡ n) xs
    → All (λ c. n + 1 ≤ f c) ys
    → Distinct (xs ++ ys)
Distinct-append f n [] ys same d e p q = e
Distinct-append f n (x ∷ xs) ys same (a, d) e (px, p) q = (
  All-append (λ c. x.id ≢ c.id) xs ys a (All-imp (λ c above eq. omega (arith, same x c eq)) ys q),
  Distinct-append f n xs ys same d e p q,
)

entries-Distinct :
    (self_id : NodeId) (k i : ℕ) (bs : List KBucket)
    → Slots self_id k i bs
    → Distinct (all_entries bs)
unfolding all_entries
entries-Distinct self_id k i [] h = tt
entries-Distinct self_id k i (b ∷ bs) (s, h) =
    Distinct-append (λ c. bucket_index self_id c.id) i b.entries (all_entries bs)
      (λ x y e. ap (bucket_index self_id) e) s.valid.distinct
      (entries-Distinct self_id k (i + 1) bs h) (All-imp (λ c p. p.2) b.entries s.valid.belong)
      (entries_above self_id k (i + 1) (i + 1) bs (omega arith) h)

-- No identifier stands twice in a valid table, in one bucket or in two.
pub all_nodes-Distinct : (rt : RoutingTable) → IsValid rt → Distinct (all_nodes rt)
unfolding all_nodes
all_nodes-Distinct rt v = entries-Distinct rt.self_id rt.k 0 rt.buckets v.slots

total-entries : (bs : List KBucket) (n : ℕ) → total bs n ≡ n + length (all_entries bs)
unfolding total all_entries
total-entries [] n = omega arith
total-entries (b ∷ bs) n =
    omega
      (arith, total-entries bs (n + length b.entries), length-append {0} b.entries (all_entries bs))

entries_bound :
    (self_id : NodeId) (k i : ℕ) (bs : List KBucket)
    → Slots self_id k i bs
    → length (all_entries bs) ≤ length bs * k
unfolding all_entries
entries_bound self_id k i [] h = omega arith
entries_bound self_id k i (b ∷ bs) (s, h) = omega (
  arith,
  length-append {0} b.entries (all_entries bs),
  s.valid.bounded,
  s.capacity,
  entries_bound self_id k (i + 1) bs h,
)

-- `Size` counts the contacts of `AllNodes`, of which there are at most `k` for each bucket.
pub size-all_nodes :
    (rt : RoutingTable) → IsValid rt → (size rt ≡ length (all_nodes rt)) × (size rt ≤ 256 * rt.k)
unfolding size all_nodes
size-all_nodes rt v =
    let n = total-entries rt.buckets 0 in
    let bound : length (all_entries rt.buckets) ≤ 256 * rt.k =
      rw v.count at (entries_bound rt.self_id rt.k 0 rt.buckets v.slots) in
    (omega arith, omega arith)

pub first-append :
    (count : ℕ) (all : List NodeContact)
    → (rest : List NodeContact) × (first count all ++ rest ≡ all)
      × (length (first count all) ≡ min count (length all))
first-append count all = elim (Bool-cases (ltb count (length all))) [
  | inl more ↦
      (drop count all, rw more (take-append-drop count all), rw more (length-take count all))
  | inr fits ↦
      let le : length all ≤ count = ground arith in
      ([], rw fits (append-nil all), rw fits (omega arith))
]

pub IsSorted-append :
    (key : NodeContact → ℕ) (xs ys : List NodeContact)
    → IsSorted key (xs ++ ys)
    → IsSorted key xs × All (λ x. All (λ y. key x ≤ key y) ys) xs
IsSorted-append key [] ys h = (tt, tt)
IsSorted-append key (x ∷ xs) ys (a, h) =
    let (before, after) = All-split (λ y. key x ≤ key y) xs ys a in
    let (s, r) = IsSorted-append key xs ys h in ((before, s), (after, r))

pub closer-metric :
    (target : NodeId)
    → IsNodeId target
    → (x y : NodeContact) → IsNodeId x.id
    → IsNodeId y.id
    → closer target x y ≡ ltb (metric target x) (metric target y)
closer-metric target ht x y hx hy =
    let dx = distance-IsNodeId x.id target hx ht in
    let dy = distance-IsNodeId y.id target hy ht in
    less-value (distance x.id target) (distance y.id target) (omega (arith, dx.size, dy.size))
      dx.bytes dy.bytes

-- `FindClosest` returns the `count` contacts of the table that are nearest to the target, nearest
-- first, or all of them where there are fewer: they and a rest are the contacts of the table, each
-- as often, and none of the rest is nearer to the target than any of those returned.
pub find_closest_lem :
    (rt : RoutingTable) (target : NodeId) (count : ℕ)
    → IsValid rt
    → IsNodeId target
    → (rest : List NodeContact) × Perm (find_closest target count rt ++ rest) (all_nodes rt)
      × IsSorted (metric target) (find_closest target count rt)
      × All (λ x. All (λ y. metric target x ≤ metric target y) rest) (find_closest target count rt)
      × (length (find_closest target count rt) ≡ min count (size rt))
unfolding find_closest
find_closest_lem rt target count v ht =
    let sorted = sort (closer target) (all_nodes rt) in
    let (rest, whole, len) = first-append count sorted in
    let ordered : IsSorted (metric target) (first count sorted ++ rest) = rw whole (
      sort-IsSorted (closer target) (metric target) (λ c. IsNodeId c.id) (closer-metric target ht)
        (all_nodes rt) (entries-IsNodeId rt.self_id rt.k 0 rt.buckets v.slots)) in
    let (s, after) = IsSorted-append (metric target) (first count sorted) rest ordered in
    (
      rest,
      rw whole (sort-perm (closer target) (all_nodes rt)),
      s,
      after,
      omega (arith, len, length-sort (closer target) (all_nodes rt), (size-all_nodes rt v).0),
    )
