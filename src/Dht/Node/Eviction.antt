-- ===== src/Dht/Node/Eviction.antt =====
-- What a full bucket does with a new contact.
use agent_dns.Dht.Bucket.Contents.{evict_reads}
use agent_dns.Dht.Bucket.Extract.{add_full}
use agent_dns.Dht.Bucket.{NodeContact, KBucket, get, get_in, seen_at, evict, add_or_update}
use agent_dns.Dht.Node.Joining.{IsValid, head_of, absent_of_get}
use agent_dns.Dht.Node.{Node, Message, MsgType, pinged, ping, settle, add_node, unix, ping_message}
use agent_dns.Dht.NodeId.{NodeId}
use agent_dns.Dht.Routing
use agent_dns.Dht.Routing.Contents.{find, Outcome, add_node_lem}
use agent_dns.Dht.Routing.Invariant.{IsValid as TableIsValid, Slots-get}
use agent_dns.Dht.Routing.Ranges.{bucket_index-lt}
use agent_dns.Dht.Routing.{RoutingTable, num_buckets, bucket_index, evict_and_replace}
use agent_dns.Prelude.{
  ℕ, ◌<◌, ◌≡◌, ◌≢◌, refl, sym, ap, ◌∙◌, Bool, true, false, List, ◌∷◌, Option, none, some, Bytes,
  Bytes-discrete, ite, if_pos, if_neg, length, get_elem?, set, get_elem?-set_self, get_elem?-set_ne,
  set-get_elem?, if◌then◌else◌, arith, Option-cases, inl, inr, Bool-cases, ℕ_discrete, lt→ltb,
}

abbrev pub is_reply : MsgType → Bool
is_reply MsgType.msg_ping_reply = true
is_reply _ = false

-- Whether a contact answers the node's ping with a ping reply.
abbrev pub answers : (Bytes → Message → Option Message) → ℕ → Bytes → NodeContact → Node → Bool
answers send now request e d = elim (send e.address (ping_message d request now)) [
  | none ↦ false
  | some resp ↦ is_reply resp.type
]

find-write :
    (rt : RoutingTable) (i : ℕ) (b : KBucket) (id : NodeId)
    → i < length rt.buckets
    → find id (record rt { buckets = set rt.buckets i b })
      ≡ ite (ℕ_discrete i (bucket_index rt.self_id id)) (get b id) (find id rt)
find-write rt i b id inside = elim (ℕ_discrete i (bucket_index rt.self_id id)) [
  | yes same ↦
      rw
        (
          if_pos (ℕ_discrete i (bucket_index rt.self_id id)) same,
          ← same,
          get_elem?-set_self rt.buckets i b inside,
        )
        refl
  | no other ↦
      rw
        (
          if_neg (ℕ_discrete i (bucket_index rt.self_id id)) other,
          get_elem?-set_ne rt.buckets i (bucket_index rt.self_id id) b other,
        )
        refl
]

get_in_head : (e : NodeContact) (es : List NodeContact) → get_in e.id (e ∷ es) ≡ some e
unfolding get_in
get_in_head e es = ground arith

module _ {rt : RoutingTable} (v : TableIsValid rt) (c e : NodeContact) {b : KBucket}
    {es : List NodeContact} (found : get_elem? rt.buckets (bucket_index rt.self_id c.id) ≡ some b)
    (eq : b.entries ≡ e ∷ es) where
  -- The head of the bucket of `c` is read back.
  pub found_head : find e.id rt ≡ some e
  unfolding get
  found_head =
      let (_, _, home) = head_of v (bucket_index rt.self_id c.id) found eq in
      rw (home, found, eq) (get_in_head e es)

  replaced :
      (now : ℕ)
      → find c.id rt ≡ none
      → (id : NodeId)
      → find id
          (record rt { buckets = set rt.buckets (bucket_index rt.self_id c.id) (evict now c b) })
        ≡ ite
            (Bytes-discrete c.id id)
            (some (seen_at now c))
            (ite (Bytes-discrete e.id id) none (find id rt))
  replaced now absent id =
      let i = bucket_index rt.self_id c.id in
      let s = Slots-get rt.self_id rt.k 0 i i rt.buckets (omega arith) v.slots found in
      let (_, _, home) = head_of v i found eq in
      let reads = evict_reads s.valid now c e es eq (rw found at absent) id in
      let write =
        find-write rt i (evict now c b) id (rw v.count (bucket_index-lt rt.self_id c.id)) in
      elim (ℕ_discrete i (bucket_index rt.self_id id)) [
        | yes same ↦
            let here : find id rt ≡ get b id = rw (← same, found) refl in
            write
            ∙ if_pos (ℕ_discrete i (bucket_index rt.self_id id)) same (get (evict now c b) id)
                (find id rt)
            ∙ rw here reads
        | no other ↦
            write
            ∙ if_neg (ℕ_discrete i (bucket_index rt.self_id id)) other (get (evict now c b) id)
                (find id rt)
            ∙ rw
                (
                  if_neg (Bytes-discrete c.id id) (λ x. other (ap (bucket_index rt.self_id) x)),
                  if_neg (Bytes-discrete e.id id)
                      (λ x. other (sym home ∙ ap (bucket_index rt.self_id) x)),
                )
                refl
      ]

  pub full_refuses :
      (now : ℕ)
      → c.id ≢ rt.self_id
      → length b.entries ≡ rt.k
      → find c.id rt ≡ none
      → Routing.add_node now c rt ≡ some (rt, some e)
  unfolding Routing.add_node
  full_refuses now other full absent =
      let i = bucket_index rt.self_id c.id in
      let s = Slots-get rt.self_id rt.k 0 i i rt.buckets (omega arith) v.slots found in
      let gone = absent_of_get c.id b (rw found at absent) in
      let refused : add_or_update now c b ≡ some (b, some e) =
        add_full now c b gone (omega (arith, s.capacity)) ∙ rw eq refl in
      rw (if_neg _ other, found, refused, set-get_elem? rt.buckets i b found) refl

  pub evicted :
      (now : ℕ)
      → evict_and_replace now (bucket_index rt.self_id c.id) c rt
        ≡ some
            (record rt { buckets = set rt.buckets (bucket_index rt.self_id c.id) (evict now c b) })
  unfolding evict_and_replace
  evicted now =
      rw
        (lt→ltb (bucket_index rt.self_id c.id) num_buckets (bucket_index-lt rt.self_id c.id), found)
        refl

  -- The head, taken in again, is there, seen now, and all else reads as before.
  renewed :
      (now : ℕ)
      → (rt' : RoutingTable) × (Routing.add_node now e rt ≡ some (rt', none))
        × ((id : NodeId)
            → find id rt' ≡ ite (Bytes-discrete e.id id) (some (seen_at now e)) (find id rt))
  renewed now =
      let (_, other, _) = head_of v (bucket_index rt.self_id c.id) found eq in
      elim (add_node_lem now e rt v) [
        | Outcome.local same done ↦ absurd (other same)
        | Outcome.held rt' done reads ↦ (rt', done, reads)
        | Outcome.full b' e' es' done _ _ _ _ absent ↦
            let clash : ◌≡◌ {A = Option NodeContact} none (some e) = sym absent ∙ found_head in
            absurd (ground arith)
      ]

module _ (send : Bytes → Message → Option Message) (now : ℕ) (request : Bytes) where
  pinged_reply :
      (e : NodeContact) (d : Node) {rt : RoutingTable} (type : MsgType)
      → is_reply type ≡ true
      → Routing.add_node (unix now) e d.routing_table ≡ some (rt, none)
      → pinged send now e d type ≡ some (record d { routing_table = rt }, true)
  unfolding pinged
  pinged_reply e d MsgType.msg_ping_reply h done = rw done refl
  pinged_reply e d _ h done = absurd (ground arith)

  pinged_other :
      (e : NodeContact) (d : Node) (type : MsgType)
      → is_reply type ≡ false
      → pinged send now e d type ≡ some (d, false)
  unfolding pinged
  pinged_other e d MsgType.msg_ping_reply h = absurd (ground arith)
  pinged_other e d _ h = refl

  ping_alive :
      (e : NodeContact) (d : Node) {rt : RoutingTable}
      → answers send now request e d ≡ true
      → Routing.add_node (unix now) e d.routing_table ≡ some (rt, none)
      → ping send now request e d ≡ some (record d { routing_table = rt }, true)
  unfolding ping
  ping_alive e d h done = elim (Option-cases (send e.address (ping_message d request now))) [
    | inl lost ↦ absurd (ground arith)
    | inr (resp, came) ↦ rw (came, ping) (pinged_reply e d resp.type (rw (came, answers) at h) done)
  ]

  ping_dead :
      (e : NodeContact) (d : Node)
      → answers send now request e d ≡ false
      → ping send now request e d ≡ some (d, false)
  unfolding ping
  ping_dead e d h = elim (Option-cases (send e.address (ping_message d request now))) [
    | inl lost ↦ rw (lost, ping) refl
    | inr (resp, came) ↦ rw (came, ping) (pinged_other e d resp.type (rw (came, answers) at h))
  ]

-- A contact that meets a full bucket in which it is not, while nothing else runs on the node: the head
-- of the bucket is pinged. If it answers, it is marked as seen and the newcomer is dropped; if not, the newcomer
-- takes its place. In both cases every other identifier reads as before.
pub add_node_to_full :
    (send : Bytes → Message → Option Message) (now : ℕ) (request : Bytes) (c e : NodeContact)
    (d : Node) {b : KBucket} {es : List NodeContact}
    → IsValid d
    → c.id ≢ d.routing_table.self_id
    → get_elem? d.routing_table.buckets (bucket_index d.routing_table.self_id c.id) ≡ some b
    → b.entries ≡ e ∷ es
    → length b.entries ≡ d.routing_table.k
    → find c.id d.routing_table ≡ none
    → (d' : Node) × (add_node send now request c d ≡ some d')
      × ((id : NodeId)
          → find id d'.routing_table ≡ (
              if answers send now request e d
              then ite
                  (Bytes-discrete e.id id)
                  (some (seen_at (unix now) e))
                  (find id d.routing_table)
              else ite
                  (Bytes-discrete c.id id)
                  (some (seen_at (unix now) c))
                  (ite (Bytes-discrete e.id id) none (find id d.routing_table))))
unfolding add_node settle
add_node_to_full send now request c e d {b} v other found eq full absent =
    let refused = full_refuses v.table c e found eq (unix now) other full absent in
    elim (Bool-cases (answers send now request e d)) [
      | inl alive ↦
          let (rt, done, reads) = renewed v.table c e found eq (unix now) in
          (
            record d { routing_table = rt },
            rw (refused, ping_alive send now request e d alive done) refl,
            rw alive reads,
          )
      | inr dead ↦ (
        record d {
          routing_table = record d.routing_table {
            buckets =
                set d.routing_table.buckets (bucket_index d.routing_table.self_id c.id)
                  (evict (unix now) c b);
          };
        },
        rw (refused, ping_dead send now request e d dead, evicted v.table c e found eq (unix now))
            refl,
        rw dead (replaced v.table c e found eq (unix now) absent),
      )
    ]
