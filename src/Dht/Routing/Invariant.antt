-- ===== src/Dht/Routing/Invariant.antt =====
-- The invariant of the routing table and its preservation by every method.
use agent_dns.Dht.Bucket
use agent_dns.Dht.Bucket.Contents.{add_or_update_lem, Added}
use agent_dns.Dht.Bucket.Invariant.{
  IsValid as BucketIsValid, add_or_update-IsValid, move_to_tail-IsValid, remove-IsValid,
  evict-IsValid,
}
use agent_dns.Dht.Bucket.{
  NodeContact, KBucket, new_bucket, add_or_update, move_to_tail, remove, extract,
}
use agent_dns.Dht.NodeId.{NodeId, IsNodeId}
use agent_dns.Dht.Routing.Ranges.{bucket_index-lt}
use agent_dns.Dht.Routing.{
  num_buckets, RoutingTable, new_routing_table, bucket_index, add_node, remove_node,
  evict_and_replace, mark_seen,
}
use agent_dns.Prelude.{
  ℕ, zero, suc, ◌+◌, ◌<◌, ◌≡◌, ◌≢◌, refl, subst, ◌∙◌, List, [], ◌∷◌, Option, none, some,
  Bytes-discrete, length, get_elem?, set, replicate, length-set, length-replicate, get_elem?_of_lt,
  arith, if_pos, if_neg, lt→ltb,
}

-- The identifiers that bucket `i` is for.
abbrev pub Belongs : NodeId → ℕ → NodeId → Type 0
Belongs self_id i id = IsNodeId id × (id ≢ self_id) × (bucket_index self_id id ≡ i)

pub record Slot (self_id : NodeId) (k i : ℕ) (b : KBucket) : Type 0 where
  pub capacity : b.k ≡ k
  pub valid : BucketIsValid (Belongs self_id i) b

-- The buckets of a list, the first of which has index `i`.
abbrev pub Slots : NodeId → ℕ → ℕ → List KBucket → Type 0
Slots self_id k i [] = Unit
Slots self_id k i (b ∷ bs) = Slot self_id k i b × Slots self_id k (i + 1) bs

pub record IsValid (rt : RoutingTable) : Type 0 where
  pub self : IsNodeId rt.self_id
  pub positive : 0 < rt.k
  pub count : length rt.buckets ≡ num_buckets
  pub slots : Slots rt.self_id rt.k 0 rt.buckets

module _ (self_id : NodeId) (k : ℕ) where
  pub Slots-get :
      (i j n : ℕ) (bs : List KBucket) {b : KBucket}
      → n ≡ i + j
      → Slots self_id k i bs
      → get_elem? bs j ≡ some b
      → Slot self_id k n b
  Slots-get i j n [] e v h = absurd (cc)
  Slots-get i zero n (x ∷ bs) {b} e (s, v) h =
      let same : x ≡ b = cc in
      let at_i : i ≡ n = omega arith in
      subst (Slot self_id k n) same (subst (λ m. Slot self_id k m x) at_i s)
  Slots-get i (suc j) n (x ∷ bs) e (s, v) h = Slots-get (i + 1) j n bs (omega arith) v h

  Slots-set :
      (i j n : ℕ) (bs : List KBucket) (b : KBucket)
      → n ≡ i + j
      → Slots self_id k i bs
      → Slot self_id k n b
      → Slots self_id k i (set bs j b)
  Slots-set i j n [] b e v s = tt
  Slots-set i zero n (x ∷ bs) b e (_, v) s =
      let at_i : n ≡ i = omega arith in (subst (λ m. Slot self_id k m b) at_i s, v)
  Slots-set i (suc j) n (x ∷ bs) b e (t, v) s = (t, Slots-set (i + 1) j n bs b (omega arith) v s)

  Slots-replicate : (i n : ℕ) → Slots self_id k i (replicate n (new_bucket k))
  Slots-replicate i zero = tt
  Slots-replicate i (suc n) = (
    record {
      capacity = refl;
      valid = record { bounded = omega arith; distinct = tt; belong = tt };
    },
    Slots-replicate (i + 1) n,
  )

-- A new table is valid.
pub new_routing_table-IsValid :
    (self_id : NodeId) (k : ℕ) → IsNodeId self_id → 0 < k → IsValid (new_routing_table self_id k)
unfolding new_routing_table
new_routing_table-IsValid self_id k h p = record {
  self = h;
  positive = p;
  count = length-replicate num_buckets (new_bucket k);
  slots = Slots-replicate self_id k 0 num_buckets;
}

k-remove : (id : NodeId) (b : KBucket) → (remove id b).k ≡ b.k
unfolding remove
k-remove id b = ground arith

k-move_to_tail : (now : ℕ) (id : NodeId) (b : KBucket) → (move_to_tail now id b).k ≡ b.k
unfolding move_to_tail
k-move_to_tail now id b = ground arith

k-evict : (now : ℕ) (c : NodeContact) (b : KBucket) → (Bucket.evict now c b).k ≡ b.k
unfolding Bucket.evict
k-evict now c b = refl

module _ {rt : RoutingTable} (v : IsValid rt) where
  -- The bucket that an identifier belongs in.
  pub Slot-of :
      (id : NodeId)
      → (b : KBucket) × (get_elem? rt.buckets (bucket_index rt.self_id id) ≡ some b)
        × Slot rt.self_id rt.k (bucket_index rt.self_id id) b
  Slot-of id =
      let i = bucket_index rt.self_id id in
      let (b, found) = get_elem?_of_lt rt.buckets i (rw v.count (bucket_index-lt rt.self_id id)) in
      (b, found, Slots-get rt.self_id rt.k 0 i i rt.buckets (omega arith) v.slots found)

  write :
      (i : ℕ) (b : KBucket)
      → Slot rt.self_id rt.k i b
      → IsValid (record rt { buckets = set rt.buckets i b })
  write i b s = record {
    self = v.self;
    positive = v.positive;
    count = length-set rt.buckets i b ∙ v.count;
    slots = Slots-set rt.self_id rt.k 0 i i rt.buckets b (omega arith) v.slots s;
  }

  -- `AddNode` never panics and keeps the table valid.
  pub add_node-IsValid :
      (now : ℕ) (c : NodeContact)
      → IsNodeId c.id
      → (rt' : RoutingTable) × (candidate : Option NodeContact) × (add_node now c rt
          ≡ some (rt', candidate))
        × IsValid rt'
        × (rt'.self_id ≡ rt.self_id)
  unfolding add_node
  add_node-IsValid now c h = elim (Bytes-discrete c.id rt.self_id) [
    | yes same ↦ (rt, none, rw (if_pos (Bytes-discrete c.id rt.self_id) same), v, refl)
    | no other ↦
        let i = bucket_index rt.self_id c.id in
        let (b, found, s) = Slot-of c.id in
        let belongs : Belongs rt.self_id i c.id = (h, other, refl) in
        elim (add_or_update_lem s.valid now c (rw s.capacity v.positive)) [
          | Added.taken b' done holds ↦ (
            record rt { buckets = set rt.buckets i b' },
            none,
            rw (if_neg _ other, found, done),
            write i b' (record {
              capacity = holds.size ∙ s.capacity;
              valid = add_or_update-IsValid s.valid now c belongs done;
            }),
            refl,
          )
          | Added.refused e es done _ _ _ ↦ (
            record rt { buckets = set rt.buckets i b },
            some e,
            rw (if_neg _ other, found, done),
            write i b s,
            refl,
          )
        ]
  ]

  -- `RemoveNode` and `MarkSeen` never panic and keep the table valid.
  pub remove_node-IsValid :
      (id : NodeId) → (rt' : RoutingTable) × (remove_node id rt ≡ some rt') × IsValid rt'
  unfolding remove_node
  remove_node-IsValid id =
      let (b, found, s) = Slot-of id in
      (
        record rt { buckets = set rt.buckets (bucket_index rt.self_id id) (remove id b) },
        rw found,
        write (bucket_index rt.self_id id) (remove id b)
            (record { capacity = k-remove id b ∙ s.capacity; valid = remove-IsValid s.valid id }),
      )

  pub mark_seen-IsValid :
      (now : ℕ) (id : NodeId)
      → (rt' : RoutingTable) × (mark_seen now id rt ≡ some rt') × IsValid rt'
  unfolding mark_seen
  mark_seen-IsValid now id =
      let (b, found, s) = Slot-of id in
      (
        record rt { buckets = set rt.buckets (bucket_index rt.self_id id) (move_to_tail now id b) },
        rw found,
        write (bucket_index rt.self_id id) (move_to_tail now id b) (record {
          capacity = k-move_to_tail now id b ∙ s.capacity;
          valid = move_to_tail-IsValid s.valid now id;
        }),
      )

  -- `EvictAndReplace` keeps the table valid where the contact belongs in the bucket and is not in
  -- it yet, which the method itself does not check.
  pub evict_and_replace-IsValid :
      (now : ℕ) (c : NodeContact) {b : KBucket}
      → IsNodeId c.id
      → c.id ≢ rt.self_id
      → get_elem? rt.buckets (bucket_index rt.self_id c.id) ≡ some b
      → extract c.id b.entries ≡ none
      → (rt' : RoutingTable) × (evict_and_replace now (bucket_index rt.self_id c.id) c rt
          ≡ some rt')
        × IsValid rt'
  unfolding evict_and_replace
  evict_and_replace-IsValid now c {b} h other found new =
      let i = bucket_index rt.self_id c.id in
      let s = Slots-get rt.self_id rt.k 0 i i rt.buckets (omega arith) v.slots found in
      (
        record rt { buckets = set rt.buckets i (Bucket.evict now c b) },
        rw (lt→ltb i num_buckets (bucket_index-lt rt.self_id c.id), found),
        write i (Bucket.evict now c b) (record {
          capacity = k-evict now c b ∙ s.capacity;
          valid = evict-IsValid s.valid now c (h, other, refl) (rw s.capacity v.positive) new;
        }),
      )
