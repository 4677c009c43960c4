-- ===== src/Dht/Node/Joining.antt =====
-- How contacts join a node: the table stays valid whatever the peers answer, and a contact that
-- answers is never replaced.
use agent_dns.Dht.Bucket.{NodeContact, KBucket, get, get_in, extract}
use agent_dns.Dht.NodeId.{NodeId, IsNodeId}
use agent_dns.Dht.Node.{
  Node, EntityDhtRecord, Config, Message, MsgType, new, pinged, ping, settle, add_node, unix,
  ping_message, or_default, answer, store_local, store_request, handle_message,
}
use agent_dns.Dht.Routing
use agent_dns.Dht.Routing.Contents.{find, Outcome, add_node_lem}
use agent_dns.Dht.Routing.Invariant.{
  IsValid as TableIsValid, add_node-IsValid as table_add_node-IsValid, Belongs, Slots-get,
  new_routing_table-IsValid, evict_and_replace-IsValid,
}
use agent_dns.Dht.Routing.{RoutingTable, bucket_index, evict_and_replace}
use agent_dns.Prelude.{
  ℕ, ◌<◌, ◌≡◌, ◌≢◌, refl, Bool, true, false, List, [], ◌∷◌, Option, none, some, Bytes, get_elem?,
  arith, Option-cases, inl, inr, ◌∙◌, ◌⊎◌, Bool-cases, subst,
}

-- A node's table is valid and is the table of that node.
pub record IsValid (d : Node) : Type 0 where
  pub table : TableIsValid d.routing_table
  pub own : d.routing_table.self_id ≡ d.self_id

or_default_pos : (n m : ℕ) → 0 < m → 0 < or_default n m
or_default_pos n m h = ground arith

-- A new node is valid for every configuration, a zero bucket size included.
pub new-IsValid :
    (self_id : NodeId) (self_addr : Bytes) (cfg : Config)
    → IsNodeId self_id
    → IsValid (new self_id self_addr cfg)
unfolding new
new-IsValid self_id self_addr cfg h = record {
  table = new_routing_table-IsValid self_id _ h (or_default_pos cfg.k 20 (omega arith));
  own = unfold Routing.new_routing_table in refl;
}

absent : (id : NodeId) (es : List NodeContact) → get_in id es ≡ none → extract id es ≡ none
unfolding get_in extract
absent id [] h = refl
absent id (e ∷ es) h = ground (arith, absent id es)

-- What stays of a node while its table changes.
pub record Same (d d' : Node) : Type 0 where
  pub self_id : d'.self_id ≡ d.self_id
  pub config : d'.config ≡ d.config
  pub store : d'.store ≡ d.store

-- The contact that a full bucket gives up is one of its own, in its own bucket.
pub head_of :
    {rt : RoutingTable} (v : TableIsValid rt) (i : ℕ) {b : KBucket} {e : NodeContact}
    {es : List NodeContact}
    → get_elem? rt.buckets i ≡ some b
    → b.entries ≡ e ∷ es
    → Belongs rt.self_id i e.id
head_of {rt} v i found eq =
    let s = Slots-get rt.self_id rt.k 0 i i rt.buckets (omega arith) v.slots found in
    (rw eq at s.valid.belong).0

pub absent_of_get : (id : NodeId) (b : KBucket) → get b id ≡ none → extract id b.entries ≡ none
unfolding get
absent_of_get id b h = absent id b.entries h

self_id-evict_and_replace :
    (now i : ℕ) (c : NodeContact) (rt : RoutingTable) {rt' : RoutingTable}
    → evict_and_replace now i c rt ≡ some rt'
    → rt'.self_id ≡ rt.self_id
unfolding evict_and_replace
self_id-evict_and_replace now i c rt h = ground arith

add_node_keeps :
    {rt rt' : RoutingTable} {candidate : Option NodeContact} (v : TableIsValid rt) (now : ℕ)
    (c : NodeContact)
    → IsNodeId c.id
    → Routing.add_node now c rt ≡ some (rt', candidate)
    → TableIsValid rt' × (rt'.self_id ≡ rt.self_id)
add_node_keeps {rt} {rt'} v now c h done =
    let (rt'', e, also, w, own) = table_add_node-IsValid v now c h in
    let same : rt'' ≡ rt' = cc in
    subst (λ r. TableIsValid r × (r.self_id ≡ rt.self_id)) same (w, own)

stored-IsValid :
    (now : ℕ) (key : NodeId) (d : Node) (content : Option EntityDhtRecord)
    → IsValid d
    → IsValid (store_request now key content d)
      × ((store_request now key content d).self_id ≡ d.self_id)
unfolding store_request store_local
stored-IsValid now key d none v = (v, refl)
stored-IsValid now key d (some r) v = (record { table = v.table; own = v.own }, refl)

pub answer-IsValid :
    (now : ℕ) (msg : Message) (d : Node) (type : MsgType)
    → IsValid d
    → IsValid (answer now msg d type).0
      × ((answer now msg d type).0.self_id ≡ d.self_id)
      × ((answer now msg d type).1.request_id ≡ msg.request_id)
      × ((answer now msg d type).1.sender_id ≡ d.self_id)
unfolding answer
answer-IsValid now msg d MsgType.msg_store v =
    let (w, own) = stored-IsValid now msg.key d msg.value_record v in (w, own, refl, refl)
answer-IsValid now msg d MsgType.msg_find_value v = (v, refl, ground arith, ground arith)
answer-IsValid now msg d _ v = (v, refl, refl, refl)

module _ (send : Bytes → Message → Option Message) where
  -- A ping does not panic, keeps the node valid, and changes nothing unless it is answered.
  pinged-IsValid :
      (now : ℕ) (c : NodeContact) (d : Node) (type : MsgType)
      → IsNodeId c.id
      → IsValid d
      → (d' : Node) × (alive : Bool) × (pinged send now c d type ≡ some (d', alive))
        × IsValid d'
        × Same d d'
        × ((alive ≡ true) ⊎ (d' ≡ d))
  unfolding pinged
  pinged-IsValid now c d MsgType.msg_ping_reply h v =
      let (rt, e, done, w, own) = table_add_node-IsValid v.table (unix now) c h in
      (
        record d { routing_table = rt },
        true,
        rw done refl,
        record { table = w; own = own ∙ v.own },
        record { self_id = refl; config = refl; store = refl },
        inl refl,
      )
  pinged-IsValid now c d _ h v =
      (d, false, refl, v, record { self_id = refl; config = refl; store = refl }, inr refl)

  ping-IsValid :
      (now : ℕ) (request : Bytes) (c : NodeContact) (d : Node)
      → IsNodeId c.id
      → IsValid d
      → (d' : Node) × (alive : Bool) × (ping send now request c d ≡ some (d', alive))
        × IsValid d'
        × Same d d'
        × ((alive ≡ true) ⊎ (d' ≡ d))
  unfolding ping
  ping-IsValid now request c d h v =
      elim (Option-cases (send c.address (ping_message d request now))) [
        | inl lost ↦ (
          d,
          false,
          rw (lost, ping) refl,
          v,
          record { self_id = refl; config = refl; store = refl },
          inr refl,
        )
        | inr (resp, came) ↦
            let (d', alive, done, w, same, kept) = pinged-IsValid now c d resp.type h v in
            (d', alive, rw (came, ping) done, w, same, kept)
      ]

  -- A full bucket's candidate and the contact that waits for its place.
  settle-IsValid :
      (now : ℕ) (request : Bytes) (c e : NodeContact) (d : Node) {b : KBucket}
      {es : List NodeContact}
      → IsNodeId c.id
      → c.id ≢ d.routing_table.self_id
      → IsValid d
      → get_elem? d.routing_table.buckets (bucket_index d.routing_table.self_id c.id) ≡ some b
      → b.entries ≡ e ∷ es
      → find c.id d.routing_table ≡ none
      → (d' : Node) × (settle send now request c d (some e) ≡ some d') × IsValid d' × Same d d'
  unfolding settle
  settle-IsValid now request c e d {b} h other v found eq absent =
      let i = bucket_index d.routing_table.self_id c.id in
      let (known, _, _) = head_of v.table i found eq in
      let (d', alive, done, w, same, kept) = ping-IsValid now request e d known v in
      elim (Bool-cases alive) [
        | inl lives ↦ (d', rw (done, lives) refl, w, same)
        | inr dead ↦
            let unchanged : d' ≡ d = elim kept [ inl lives ↦ absurd (ground arith) | inr u ↦ u ] in
            let new : get b c.id ≡ none = rw found at absent in
            let (rt, gone, t) =
              evict_and_replace-IsValid v.table (unix now) c h other found
                (absent_of_get c.id b new) in
            (
              record d { routing_table = rt },
              rw (done, dead, unchanged, gone) refl,
              record {
                table = t;
                own = self_id-evict_and_replace (unix now) i c d.routing_table gone ∙ v.own;
              },
              record { self_id = refl; config = refl; store = refl },
            )
      ]

  -- Whatever the peers answer, `AddNode` does not panic, keeps the node valid and leaves its
  -- identifier, configuration and records alone.
  pub add_node-IsValid :
      (now : ℕ) (request : Bytes) (c : NodeContact) (d : Node)
      → IsNodeId c.id
      → IsValid d
      → (d' : Node) × (add_node send now request c d ≡ some d') × IsValid d' × Same d d'
  unfolding add_node settle
  add_node-IsValid now request c d h v = elim (add_node_lem (unix now) c d.routing_table v.table) [
    | Outcome.local same done ↦
        (d, rw done refl, v, record { self_id = refl; config = refl; store = refl })
    | Outcome.held rt done reads ↦
        let (t, own) = add_node_keeps v.table (unix now) c h done in
        (
          record d { routing_table = rt },
          rw done refl,
          record { table = t; own = own ∙ v.own },
          record { self_id = refl; config = refl; store = refl },
        )
    | Outcome.full b e es done other found eq len absent ↦
        let (d', settled, w, same) = settle-IsValid now request c e d h other v found eq absent in
        (d', rw done settled, w, same)
  ]

  -- A message from any sender is answered without a panic, whatever the peers answer meanwhile: the
  -- node stays valid and keeps its identifier, and the answer carries the message's request id and
  -- the node's own identifier.
  pub handle_message-IsValid :
      (now : ℕ) (request : Bytes) (msg : Message) (d : Node)
      → IsNodeId msg.sender_id
      → IsValid d
      → (d' : Node) × (reply : Message) × (handle_message send now request msg d ≡ some (d', reply))
        × IsValid d'
        × (d'.self_id ≡ d.self_id)
        × (reply.request_id ≡ msg.request_id)
        × (reply.sender_id ≡ d.self_id)
  unfolding handle_message
  handle_message-IsValid now request msg d h v =
      let c : NodeContact = record {
        id = msg.sender_id;
        address = msg.sender_addr;
        last_seen = unix now;
      } in
      let (d', added, w, same) = add_node-IsValid now request c d h v in
      let (w', own, r, s) = answer-IsValid now msg d' msg.type w in
      (
        (answer now msg d' msg.type).0,
        (answer now msg d' msg.type).1,
        rw added refl,
        w',
        own ∙ same.self_id,
        r,
        s ∙ same.self_id,
      )
