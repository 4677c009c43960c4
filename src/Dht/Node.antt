-- ===== src/Dht/Node.antt =====
-- internal/dht/dht.go and the messages of internal/dht/types.go: a node with its routing table and
-- its local record store. `send` is the `Transport`: what a peer at an address answers, `none`
-- being an error. An operation is given the time in nanoseconds that `time.Now` returns in it and
-- the random id of its request; `none` is a run-time panic. An operation is given as it runs while no
-- other does on the node: the code holds no lock while it waits for a peer, so that goroutines can change
-- the node meanwhile. Dht.Routing.Interleaved is about the table under any interleaving of its methods,
-- Overlap about two calls of `AddNode` at once.
pub mod Serving
pub mod Joining
pub mod Eviction
pub mod Oldest
pub mod Overlap
use agent_dns.Dht.Bucket.{NodeContact}
use agent_dns.Dht.NodeId.Hex.{hex}
use agent_dns.Dht.NodeId.{NodeId, id_length}
use agent_dns.Dht.Routing
use agent_dns.Dht.Routing.{
  RoutingTable, new_routing_table, bucket_index, evict_and_replace, find_closest,
}
use agent_dns.Prelude.Assoc.{lookup, insert}
use agent_dns.Prelude.{
  ℕ, ◌*◌, ◌-◌, ◌/◌, Bool, true, false, List, [], ◌∷◌, Option, none, some, Bytes, Bytes-discrete,
  ltb, ◌==◌, if◌then◌else◌, ◌>>=◌, length, replicate,
}

pub record EntityDhtRecord : Type 0 where
  pub entity_id : Bytes
  pub name : Bytes
  pub category : Bytes
  pub tags : List Bytes
  pub summary : Bytes
  pub entity_url : Bytes
  pub public_key : Bytes
  pub home_registry : Bytes
  pub developer_id : Bytes
  pub status : Bytes
  pub last_heartbeat : Bytes
  pub stored_at : Bytes

-- The eight message types, and any other text.
pub data MsgType : Type 0 where
  msg_ping msg_ping_reply msg_store msg_store_reply : MsgType
  msg_find_node msg_find_node_reply msg_find_value msg_find_value_reply : MsgType
  other : Bytes → MsgType

pub record Message : Type 0 where
  pub type : MsgType
  pub sender_id : NodeId
  pub request_id : Bytes
  pub sender_addr : Bytes
  pub key : NodeId
  pub value_record : Option EntityDhtRecord
  pub target : NodeId
  pub nodes : List NodeContact
  pub value : Option EntityDhtRecord
  pub ok : Bool
  pub timestamp : ℕ

pub record Config : Type 0 where
  pub k : ℕ
  pub alpha : ℕ
  pub republish_interval : ℕ
  pub expire_after : ℕ
  pub lookup_timeout : ℕ

pub record StoredRecord : Type 0 where
  pub content : EntityDhtRecord
  pub stored_at : ℕ

pub record Node : Type 0 where
  pub self_id : NodeId
  pub self_addr : Bytes
  pub routing_table : RoutingTable
  pub config : Config
  pub store : List (Bytes × StoredRecord)

abbrev pub second : ℕ
second = 1_000_000_000

abbrev pub hour : ℕ
hour = 3600 * second

abbrev pub default_config : Config
default_config = record {
  k = 20;
  alpha = 3;
  republish_interval = 1 * hour;
  expire_after = 24 * hour;
  lookup_timeout = 5 * second;
}

abbrev pub or_default : ℕ → ℕ → ℕ
or_default n d = if n == 0 then d else n

-- `New`: a zero in the configuration stands for the default.
abbrev pub with_defaults : Config → Config
with_defaults cfg = record {
  k = or_default cfg.k 20;
  alpha = or_default cfg.alpha 3;
  republish_interval = or_default cfg.republish_interval (1 * hour);
  expire_after = or_default cfg.expire_after (24 * hour);
  lookup_timeout = or_default cfg.lookup_timeout (5 * second);
}

unfoldable pub new : NodeId → Bytes → Config → Node
new self_id self_addr cfg = record {
  self_id = self_id;
  self_addr = self_addr;
  routing_table = new_routing_table self_id (with_defaults cfg).k;
  config = with_defaults cfg;
  store = [];
}

unfoldable pub store_local : ℕ → NodeId → EntityDhtRecord → Node → Node
store_local now key content d = record d {
  store = insert Bytes-discrete (hex key) (record { content = content; stored_at = now }) d.store;
}

unfoldable pub get_local : NodeId → Node → Option EntityDhtRecord
get_local key d = do sr ← lookup Bytes-discrete (hex key) d.store; some sr.content

-- The loop of `expire`.
unfoldable pub expire_entries : ℕ → List (Bytes × StoredRecord) → List (Bytes × StoredRecord)
expire_entries cutoff [] = []
expire_entries cutoff ((key, sr) ∷ m) =
    if ltb sr.stored_at cutoff then expire_entries cutoff m else (key, sr) ∷ expire_entries cutoff m

-- The cutoff is a time, so one before the epoch expires nothing.
unfoldable pub expire : ℕ → Node → Node
unfolding expire_entries
expire now d = record d { store = expire_entries (now - d.config.expire_after) d.store }

unfoldable pub store_count : Node → ℕ
store_count d = length d.store

abbrev zero_id : NodeId
zero_id = replicate id_length 0

-- A message with the fields that every message of this node sets.
abbrev pub message : Node → MsgType → Bytes → ℕ → Message
message d type request_id now = record {
  type = type;
  sender_id = d.self_id;
  request_id = request_id;
  sender_addr = [];
  key = zero_id;
  value_record = none;
  target = zero_id;
  nodes = [];
  value = none;
  ok = false;
  timestamp = now;
}

abbrev pub ping_message : Node → Bytes → ℕ → Message
ping_message d request now = record (message d MsgType.msg_ping request now) {
  sender_addr = d.self_addr;
}

abbrev pub unix : ℕ → ℕ
unix now = now / second

-- `if msg.Record != nil`.
unfoldable pub store_request : ℕ → NodeId → Option EntityDhtRecord → Node → Node
unfolding store_local
store_request now key none d = d
store_request now key (some content) d = store_local now key content d

-- The `switch` of `HandleMessage`.
unfoldable pub answer : ℕ → Message → Node → MsgType → Node × Message
answer now msg d MsgType.msg_ping =
    (d, record (message d MsgType.msg_ping_reply msg.request_id now) { ok = true })
answer now msg d MsgType.msg_store = (
  store_request now msg.key msg.value_record d,
  record (message d MsgType.msg_store_reply msg.request_id now) { ok = true },
)
answer now msg d MsgType.msg_find_node = (
  d,
  record (message d MsgType.msg_find_node_reply msg.request_id now) {
    nodes = find_closest msg.target d.config.k d.routing_table;
  },
)
answer now msg d MsgType.msg_find_value = (
  d,
  elim (get_local msg.key d) [
    | some content ↦ record (message d MsgType.msg_find_value_reply msg.request_id now) {
      value = some content;
    }
    | none ↦ record (message d MsgType.msg_find_value_reply msg.request_id now) {
      nodes = find_closest msg.key d.config.k d.routing_table;
    }
  ],
)
answer now msg d _ = (d, message d MsgType.msg_ping_reply msg.request_id now)

module _ (send : Bytes → Message → Option Message) where
  -- What `Ping` does with the answer; the candidate of its `AddNode` is dropped.
  unfoldable pub pinged : ℕ → NodeContact → Node → MsgType → Option (Node × Bool)
  pinged now contact d MsgType.msg_ping_reply = do
    (rt, _) ← Routing.add_node (unix now) contact d.routing_table
    some (record d { routing_table = rt }, true)
  pinged now contact d _ = some (d, false)

  unfoldable pub ping : ℕ → Bytes → NodeContact → Node → Option (Node × Bool)
  unfolding pinged
  ping now request contact d = elim (send contact.address (ping_message d request now)) [
    | none ↦ some (d, false)
    | some resp ↦ pinged now contact d resp.type
  ]

  -- A full bucket's candidate is pinged: if it answers it stays, otherwise the contact replaces it. Nothing
  -- else changes the node while the ping is on its way.
  unfoldable pub settle : ℕ → Bytes → NodeContact → Node → Option NodeContact → Option Node
  unfolding ping
  settle now request contact d none = some d
  settle now request contact d (some candidate) = do
    (d', alive) ← ping now request candidate d
    let idx = bucket_index d'.routing_table.self_id contact.id
    if alive then some d' else (do
      rt ← evict_and_replace (unix now) idx contact d'.routing_table
      some (record d' { routing_table = rt }))

  unfoldable pub add_node : ℕ → Bytes → NodeContact → Node → Option Node
  unfolding settle
  add_node now request contact d = do
    (rt, eviction) ← Routing.add_node (unix now) contact d.routing_table
    settle now request contact (record d { routing_table = rt }) eviction

  unfoldable pub handle_message : ℕ → Bytes → Message → Node → Option (Node × Message)
  unfolding add_node answer store_request
  handle_message now request msg d = do
    d' ←
        add_node now request
          (record { id = msg.sender_id; address = msg.sender_addr; last_seen = unix now }) d
    some (answer now msg d' msg.type)
