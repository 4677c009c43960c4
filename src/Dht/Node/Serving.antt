-- ===== src/Dht/Node/Serving.antt =====
-- What a node stores, serves and expires.
use agent_dns.Dht.Bucket.{NodeContact}
use agent_dns.Dht.Node.Joining.{IsValid, add_node-IsValid, answer-IsValid, Same}
use agent_dns.Dht.Node.{
  Node, Message, MsgType, EntityDhtRecord, StoredRecord, store_local, get_local, store_request,
  answer, handle_message, expire_entries, expire, unix,
}
use agent_dns.Dht.NodeId.Hex.RoundTrip.{hex_key}
use agent_dns.Dht.NodeId.Hex.{hex}
use agent_dns.Dht.NodeId.{NodeId, IsNodeId}
use agent_dns.Prelude.Assoc.{lookup, lookup-insert, Unique}
use agent_dns.Prelude.{
  ℕ, ◌-◌, ◌≡◌, refl, ap, ◌∙◌, List, [], ◌∷◌, Option, none, some, Bytes, Bytes-discrete, ite, if_pos,
  if_neg, if◌then◌else◌, ltb, arith,
}

-- A key reads what was stored under it, and only that.
pub get_local-store_local :
    (now : ℕ) (key other : NodeId) (content : EntityDhtRecord) (d : Node)
    → IsNodeId key
    → IsNodeId other
    → get_local other (store_local now key content d)
      ≡ ite (Bytes-discrete key other) (some content) (get_local other d)
unfolding get_local store_local
get_local-store_local now key other content d h k =
    let (_, same) = hex_key key other h k in
    elim (Bytes-discrete key other) [
      | yes p ↦
          rw
            (
              lookup-insert,
              if_pos (Bytes-discrete (hex key) (hex other)) (same.1 p),
              if_pos (Bytes-discrete key other) p,
            )
            refl
      | no p ↦
          rw
            (
              lookup-insert,
              if_neg (Bytes-discrete (hex key) (hex other)) (λ e. p (same.0 e)),
              if_neg (Bytes-discrete key other) p,
            )
            refl
    ]

get_local-Same : (key : NodeId) {d d' : Node} → Same d d' → get_local key d' ≡ get_local key d
unfolding get_local
get_local-Same key s = rw (s.store) refl

answer-find_value :
    (now : ℕ) (msg : Message) (d : Node) (type : MsgType)
    → type ≡ MsgType.msg_find_value
    → (answer now msg d type).1.value ≡ get_local msg.key d
unfolding answer
answer-find_value now msg d type e = rw e (ground arith)

answer-store :
    (now : ℕ) (msg : Message) (d : Node) (type : MsgType) (content : EntityDhtRecord)
    → type ≡ MsgType.msg_store
    → msg.value_record ≡ some content
    → (answer now msg d type).0 ≡ store_local now msg.key content d
unfolding answer store_request
answer-store now msg d type content e r = rw (e, r) refl

-- After a store request has been handled, whatever the peers answer meanwhile, a request for the
-- same key from anybody is answered with the stored record, and a request for another key with
-- what was stored under that key before.
pub store_then_find :
    (send : Bytes → Message → Option Message) (now later : ℕ) (request request' : Bytes)
    (put query : Message) (content : EntityDhtRecord) (d : Node)
    → IsValid d
    → IsNodeId put.sender_id
    → IsNodeId query.sender_id
    → IsNodeId put.key
    → IsNodeId query.key
    → put.type ≡ MsgType.msg_store
    → put.value_record ≡ some content
    → query.type ≡ MsgType.msg_find_value
    → (d' : Node) × (ack : Message) × (d'' : Node) × (reply : Message) × (handle_message send now
          request put d
        ≡ some (d', ack))
      × (handle_message send later request' query d' ≡ some (d'', reply))
      × (reply.value
          ≡ ite (Bytes-discrete put.key query.key) (some content) (get_local query.key d))
unfolding handle_message
store_then_find send now later request request' put query content d v hp hq kp kq tp rp tq =
    let sender : ℕ → Message → NodeContact =
      λ t m. record { id = m.sender_id; address = m.sender_addr; last_seen = unix t } in
    let (d1, added, v1, s1) = add_node-IsValid send now request (sender now put) d hp v in
    let (v2, _, _, _) = answer-IsValid now put d1 put.type v1 in
    let d2 = (answer now put d1 put.type).0 in
    let (d3, added', v3, s3) = add_node-IsValid send later request' (sender later query) d2 hq v2 in
    (
      d2,
      (answer now put d1 put.type).1,
      (answer later query d3 query.type).0,
      (answer later query d3 query.type).1,
      rw added refl,
      rw added' refl,
      answer-find_value later query d3 query.type tq
          ∙ get_local-Same query.key s3
          ∙ ap (get_local query.key) (answer-store now put d1 put.type content tp rp)
          ∙ get_local-store_local now put.key query.key content d1 kp kq
          ∙ rw (get_local-Same query.key s1) refl,
    )

abbrev pub fresh : ℕ → Option StoredRecord → Option StoredRecord
fresh cutoff none = none
fresh cutoff (some sr) = if ltb sr.stored_at cutoff then none else some sr

expire_entries-lookup :
    (cutoff : ℕ) (m : List (Bytes × StoredRecord)) (key : Bytes)
    → Unique Bytes-discrete m
    → lookup Bytes-discrete key (expire_entries cutoff m)
      ≡ fresh cutoff (lookup Bytes-discrete key m)
unfolding expire_entries lookup
expire_entries-lookup cutoff [] key u = refl
expire_entries-lookup cutoff ((j, sr) ∷ m) key (new, u) =
    ground (arith, expire_entries-lookup cutoff m key u)

-- `expire` removes exactly the records that were stored more than `ExpireAfter` ago.
pub expire_lem :
    (now : ℕ) (d : Node) (key : Bytes)
    → Unique Bytes-discrete d.store
    → lookup Bytes-discrete key (expire now d).store
      ≡ fresh (now - d.config.expire_after) (lookup Bytes-discrete key d.store)
unfolding expire
expire_lem now d key u = expire_entries-lookup (now - d.config.expire_after) d.store key u
