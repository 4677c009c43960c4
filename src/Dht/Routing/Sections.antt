-- ===== src/Dht/Routing/Sections.antt =====
-- internal/dht/routing.go: the table under any interleaving of its methods. Each holds the mutex of the
-- table and is one step.
use agent_dns.Dht.Bucket
use agent_dns.Dht.Bucket.Bounds.{
  IsBounded, add_or_update-IsBounded, evict-IsBounded, move_to_tail-IsBounded, remove-IsBounded,
}
use agent_dns.Dht.Bucket.{NodeContact, KBucket, new_bucket, add_or_update, move_to_tail, remove}
use agent_dns.Dht.NodeId.{NodeId, IsNodeId}
use agent_dns.Dht.Routing.Invariant.{Belongs}
use agent_dns.Dht.Routing.Ranges.{bucket_index-lt}
use agent_dns.Dht.Routing.{
  num_buckets, RoutingTable, new_routing_table, bucket_index, add_node, remove_node,
  evict_and_replace, mark_seen,
}
use agent_dns.Prelude.{
  ℕ, zero, suc, ◌<◌, ◌≡◌, ◌≢◌, refl, sym, ap, subst, ◌∙◌, Option, none, some, Bytes-discrete,
  ℕ_discrete, length, get_elem?, set, replicate, length-set, length-replicate, get_elem?_of_lt,
  get_elem?-set_self, get_elem?-set_ne, arith, if_pos, if_neg, lt→ltb,
}
use mathlib.Core.Option.{some-injective, none-ne-some}

-- Each bucket is within its capacity and has contacts of its range only, the node itself not among
-- them.
pub record IsSound (rt : RoutingTable) : Type 0 where
  pub self : IsNodeId rt.self_id
  pub positive : 0 < rt.k
  pub count : length rt.buckets ≡ num_buckets
  pub slot :
      (i : ℕ) (b : KBucket)
      → get_elem? rt.buckets i ≡ some b
      → IsBounded (Belongs rt.self_id i) rt.k b

-- One method of the table. `EvictAndReplace` gets the index of the contact's range, and another contact
-- than the node itself, since `AddNode` gives no candidate for that one.
pub data Step (rt : RoutingTable) : RoutingTable → Type 0 where
  adds :
      (now : ℕ) (c : NodeContact) (rt' : RoutingTable) (candidate : Option NodeContact)
      → IsNodeId c.id
      → add_node now c rt ≡ some (rt', candidate)
      → Step rt rt'
  replaces :
      (now : ℕ) (c : NodeContact) (rt' : RoutingTable)
      → IsNodeId c.id
      → c.id ≢ rt.self_id
      → evict_and_replace now (bucket_index rt.self_id c.id) c rt ≡ some rt'
      → Step rt rt'
  marks :
      (now : ℕ) (id : NodeId) (rt' : RoutingTable) → mark_seen now id rt ≡ some rt' → Step rt rt'
  removes : (id : NodeId) (rt' : RoutingTable) → remove_node id rt ≡ some rt' → Step rt rt'

pub data Steps (rt : RoutingTable) : RoutingTable → Type 0 where
  start : Steps rt rt
  more : {u x : RoutingTable} → Steps rt u → Step u x → Steps rt x

-- Any method can run next: none panics.
pub record IsReady (rt : RoutingTable) : Type 0 where
  pub adds : (now : ℕ) (c : NodeContact) → IsNodeId c.id → (r : _) × (add_node now c rt ≡ some r)
  pub replaces :
      (now : ℕ) (c : NodeContact)
      → (r : _) × (evict_and_replace now (bucket_index rt.self_id c.id) c rt ≡ some r)
  pub marks : (now : ℕ) (id : NodeId) → (r : _) × (mark_seen now id rt ≡ some r)
  pub removes : (id : NodeId) → (r : _) × (remove_node id rt ≡ some r)

replicate-get : (n i : ℕ) (x b : KBucket) → get_elem? (replicate n x) i ≡ some b → x ≡ b
replicate-get zero i x b h = absurd (none-ne-some b h)
replicate-get (suc n) zero x b h = some-injective x b h
replicate-get (suc n) (suc i) x b h = replicate-get n i x b h

pub new_routing_table-IsSound :
    (self_id : NodeId) (k : ℕ) → IsNodeId self_id → 0 < k → IsSound (new_routing_table self_id k)
unfolding new_routing_table
new_routing_table-IsSound self_id k h p = record {
  self = h;
  positive = p;
  count = length-replicate num_buckets (new_bucket k);
  slot = λ i b e.
      subst (IsBounded (Belongs self_id i) k) (replicate-get num_buckets i (new_bucket k) b e)
        (record { capacity = refl; bounded = omega arith; belong = tt });
}

module _ {rt : RoutingTable} (v : IsSound rt) where
  -- The bucket that an identifier belongs in.
  slot_of :
      (id : NodeId)
      → (b : KBucket) × (get_elem? rt.buckets (bucket_index rt.self_id id) ≡ some b)
        × IsBounded (Belongs rt.self_id (bucket_index rt.self_id id)) rt.k b
  slot_of id =
      let i = bucket_index rt.self_id id in
      let (b, found) = get_elem?_of_lt rt.buckets i (rw v.count (bucket_index-lt rt.self_id id)) in
      (b, found, v.slot i b found)

  write :
      (i : ℕ) (b : KBucket)
      → i < num_buckets
      → IsBounded (Belongs rt.self_id i) rt.k b
      → IsSound (record rt { buckets = set rt.buckets i b })
  write i b inside s = record {
    self = v.self;
    positive = v.positive;
    count = length-set rt.buckets i b ∙ v.count;
    slot = λ j x h. elim (ℕ_discrete i j) [
      | yes e ↦
          let q : b ≡ x = some-injective b x (
            sym (get_elem?-set_self rt.buckets i b (rw v.count inside))
            ∙ ap (get_elem? (set rt.buckets i b)) e
            ∙ h) in
          subst (λ m. IsBounded (Belongs rt.self_id m) rt.k x) e
            (subst (IsBounded (Belongs rt.self_id i) rt.k) q s)
      | no n ↦ v.slot j x (sym (get_elem?-set_ne rt.buckets i j b n) ∙ h)
    ];
  }

  pub add_node_sound :
      (now : ℕ) (c : NodeContact)
      → IsNodeId c.id
      → (rt' : RoutingTable) × (candidate : Option NodeContact) × (add_node now c rt
          ≡ some (rt', candidate))
        × IsSound rt'
  unfolding add_node
  add_node_sound now c h = elim (Bytes-discrete c.id rt.self_id) [
    | yes same ↦ (rt, none, rw (if_pos (Bytes-discrete c.id rt.self_id) same), v)
    | no other ↦
        let i = bucket_index rt.self_id c.id in
        let (b, found, s) = slot_of c.id in
        let (b', candidate, done, s') =
          add_or_update-IsBounded s now c (h, other, refl) v.positive in
        (
          record rt { buckets = set rt.buckets i b' },
          candidate,
          rw (if_neg _ other, found, done),
          write i b' (bucket_index-lt rt.self_id c.id) s',
        )
  ]

  pub evict_and_replace-some :
      (now : ℕ) (c : NodeContact)
      → (rt' : RoutingTable) × (evict_and_replace now (bucket_index rt.self_id c.id) c rt
          ≡ some rt')
        × (IsNodeId c.id → c.id ≢ rt.self_id → IsSound rt')
  unfolding evict_and_replace
  evict_and_replace-some now c =
      let i = bucket_index rt.self_id c.id in
      let (b, found, s) = slot_of c.id in
      (
        record rt { buckets = set rt.buckets i (Bucket.evict now c b) },
        rw (lt→ltb i num_buckets (bucket_index-lt rt.self_id c.id), found),
        λ h other.
            write i (Bucket.evict now c b) (bucket_index-lt rt.self_id c.id)
              (evict-IsBounded s now c (h, other, refl) v.positive),
      )

  pub mark_seen_sound :
      (now : ℕ) (id : NodeId)
      → (rt' : RoutingTable) × (mark_seen now id rt ≡ some rt') × IsSound rt'
  unfolding mark_seen
  mark_seen_sound now id =
      let (b, found, s) = slot_of id in
      (
        record rt { buckets = set rt.buckets (bucket_index rt.self_id id) (move_to_tail now id b) },
        rw found,
        write (bucket_index rt.self_id id) (move_to_tail now id b) (bucket_index-lt rt.self_id id)
            (move_to_tail-IsBounded s now id),
      )

  pub remove_node_sound :
      (id : NodeId) → (rt' : RoutingTable) × (remove_node id rt ≡ some rt') × IsSound rt'
  unfolding remove_node
  remove_node_sound id =
      let (b, found, s) = slot_of id in
      (
        record rt { buckets = set rt.buckets (bucket_index rt.self_id id) (remove id b) },
        rw found,
        write (bucket_index rt.self_id id) (remove id b) (bucket_index-lt rt.self_id id)
            (remove-IsBounded s id),
      )

  pub sound-IsReady : IsReady rt
  sound-IsReady = record {
    adds = λ now c h.
        let (rt', candidate, done, w) = add_node_sound now c h in ((rt', candidate), done);
    replaces = λ now c. let (rt', done, w) = evict_and_replace-some now c in (rt', done);
    marks = λ now id. let (rt', done, w) = mark_seen_sound now id in (rt', done);
    removes = λ id. let (rt', done, w) = remove_node_sound id in (rt', done);
  }
