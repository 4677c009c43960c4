-- ===== src/Dht/Routing/Contents.antt =====
-- What a routing table holds after `AddNode`.
use agent_dns.Dht.Bucket.Contents.{add_or_update_lem, Added, Holds}
use agent_dns.Dht.Bucket.{NodeContact, KBucket, get, seen_at}
use agent_dns.Dht.NodeId.{NodeId}
use agent_dns.Dht.Routing.Invariant.{IsValid, Slot-of}
use agent_dns.Dht.Routing.Ranges.{bucket_index-lt}
use agent_dns.Dht.Routing.{RoutingTable, bucket_index, add_node}
use agent_dns.Prelude.{
  ℕ, ◌≡◌, ◌≢◌, ◌<◌, refl, ap, ◌∙◌, List, ◌∷◌, Option, none, some, Bytes-discrete, ite, if_pos,
  if_neg, length, get_elem?, set, get_elem?-set_self, get_elem?-set_ne, set-get_elem?, ◌>>=◌,
  ℕ_discrete,
}

-- The contact with an identifier, in the bucket that is for it.
abbrev pub find : NodeId → RoutingTable → Option NodeContact
find id rt = do b ← get_elem? rt.buckets (bucket_index rt.self_id id); get b id

-- The outcomes of `AddNode`.
pub data Outcome (now : ℕ) (c : NodeContact) (rt : RoutingTable) : Type 0 where
  -- The local node itself: nothing happens.
  local : c.id ≡ rt.self_id → add_node now c rt ≡ some (rt, none) → Outcome now c rt
  -- The contact is held, seen now, and every other identifier reads as before.
  held :
      (rt' : RoutingTable)
      → add_node now c rt ≡ some (rt', none)
      → ((id : NodeId)
          → find id rt' ≡ ite (Bytes-discrete c.id id) (some (seen_at now c)) (find id rt))
      → Outcome now c rt
  -- The bucket is full of other contacts and stays as it is; its head is returned.
  full :
      (b : KBucket) (e : NodeContact) (es : List NodeContact)
      → add_node now c rt ≡ some (rt, some e)
      → c.id ≢ rt.self_id
      → get_elem? rt.buckets (bucket_index rt.self_id c.id) ≡ some b
      → b.entries ≡ e ∷ es
      → length b.entries ≡ rt.k
      → find c.id rt ≡ none
      → Outcome now c rt

find-set :
    (rt : RoutingTable) (now : ℕ) (c : NodeContact) (b b' : KBucket)
    → bucket_index rt.self_id c.id < length rt.buckets
    → get_elem? rt.buckets (bucket_index rt.self_id c.id) ≡ some b
    → Holds now c b b'
    → (id : NodeId)
    → find id (record rt { buckets = set rt.buckets (bucket_index rt.self_id c.id) b' })
      ≡ ite (Bytes-discrete c.id id) (some (seen_at now c)) (find id rt)
find-set rt now c b b' inside found h id =
    elim (ℕ_discrete (bucket_index rt.self_id c.id) (bucket_index rt.self_id id)) [
      | yes same ↦
          rw (← same, get_elem?-set_self rt.buckets (bucket_index rt.self_id c.id) b' inside, found)
            (h.reads id)
      | no other ↦
          rw
            (
              get_elem?-set_ne rt.buckets (bucket_index rt.self_id c.id)
                  (bucket_index rt.self_id id) b' other,
              if_neg (Bytes-discrete c.id id) (λ e. other (ap (bucket_index rt.self_id) e)),
            )
            refl
    ]

-- `AddNode` on a valid table: it never panics; it ignores the local identifier, takes the contact
-- in and leaves all others readable as before, or returns the head of a full bucket and changes
-- nothing.
pub add_node_lem : (now : ℕ) (c : NodeContact) (rt : RoutingTable) → IsValid rt → Outcome now c rt
unfolding add_node
add_node_lem now c rt v = elim (Bytes-discrete c.id rt.self_id) [
  | yes same ↦ Outcome.local same (rw (if_pos (Bytes-discrete c.id rt.self_id) same))
  | no other ↦
      let (b, found, s) = Slot-of v c.id in
      elim (add_or_update_lem s.valid now c (rw s.capacity v.positive)) [
        | Added.taken b' done holds ↦
            Outcome.held (record rt { buckets = set rt.buckets (bucket_index rt.self_id c.id) b' })
              (rw (if_neg _ other, found, done))
              (find-set rt now c b b' (rw v.count (bucket_index-lt rt.self_id c.id)) found holds)
        | Added.refused e es done eq len absent ↦
            let kept = set-get_elem? rt.buckets (bucket_index rt.self_id c.id) b found in
            Outcome.full b e es (rw (if_neg _ other, found, done, kept)) other found eq
              (len ∙ s.capacity) (rw found absent)
      ]
]
