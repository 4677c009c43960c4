-- ===== src/Tests/Nodes.antt =====
-- Runs on nodes: joining, eviction, storing and expiry.
use agent_dns.Dht.Bucket.{KBucket}
use agent_dns.Dht.Node.Joining.{IsValid, new-IsValid}
use agent_dns.Dht.Node.Serving.{store_then_find, expire_lem, fresh}
use agent_dns.Dht.Node.{
  Node, Message, MsgType, EntityDhtRecord, new, default_config, handle_message, add_node, get_local,
  expire, second,
}
use agent_dns.Dht.NodeId.{NodeId, IsNodeId}
use agent_dns.Dht.Routing.Invariant.{new_routing_table-IsValid}
use agent_dns.Dht.Routing.{
  RoutingTable, new_routing_table, bucket_index, add_node as table_add_node,
}
use agent_dns.Prelude.Assoc.{lookup, Unique}
use agent_dns.Prelude.{
  ◌-◌, ◌*◌, ◌≡◌, refl, false, [], ◌∷◌, Option, none, some, Bytes, Bytes-discrete, codes, ite, arith,
}
use agent_dns.Tests.Tables.{id_of, id_of-IsNodeId, contact, left, left-IsValid}

-- No peer answers.
abbrev silent : Bytes → Message → Option Message
silent address msg = none

abbrev pub node : Node
node = new (id_of 1) (codes "host:4001") default_config

pub node-IsValid : IsValid node
node-IsValid =
    new-IsValid (id_of 1) (codes "host:4001") default_config (id_of-IsNodeId 1 (omega arith))

abbrev pub content : EntityDhtRecord
content = record {
  entity_id = codes "zns:ab";
  name = codes "translator";
  category = [];
  tags = [];
  summary = [];
  entity_url = [];
  public_key = [];
  home_registry = [];
  developer_id = [];
  status = [];
  last_heartbeat = [];
  stored_at = [];
}

abbrev pub put : Message
put = record {
  type = MsgType.msg_store;
  sender_id = id_of 2;
  request_id = codes "r1";
  sender_addr = codes "peer:4001";
  key = id_of 9;
  value_record = some content;
  target = id_of 0;
  nodes = [];
  value = none;
  ok = false;
  timestamp = 0;
}

abbrev query : Message
query = record put { type = MsgType.msg_find_value; sender_id = id_of 3; value_record = none }

store_then_find_example :
    (d' : Node) × (ack : Message) × (d'' : Node) × (reply : Message) × (handle_message silent 5
        (codes "q")
        put
        node
      ≡ some (d', ack))
    × (handle_message silent 6 (codes "s") query d' ≡ some (d'', reply))
    × (reply.value
        ≡ ite (Bytes-discrete put.key query.key) (some content) (get_local query.key node))
store_then_find_example =
    store_then_find silent 5 6 (codes "q") (codes "s") put query content node node-IsValid
      (id_of-IsNodeId 2 (omega arith)) (id_of-IsNodeId 3 (omega arith))
      (id_of-IsNodeId 9 (omega arith)) (id_of-IsNodeId 9 (omega arith)) refl refl refl

-- A node with a record that is a second old and one that is new.
abbrev holder : Node
holder = record node {
  config = record default_config { expire_after = 1 * second };
  store =
      (codes "a", record { content = content; stored_at = 7 * second })
      ∷ (codes "b", record { content = content; stored_at = 9 * second })
      ∷ [];
}

holder-Unique : Unique Bytes-discrete holder.store
unfolding lookup Bytes-discrete
holder-Unique = (refl, (refl, tt))

expire_lem_example :
    lookup Bytes-discrete (codes "a") (expire (9 * second) holder).store
    ≡ fresh
        (9 * second - holder.config.expire_after)
        (lookup Bytes-discrete (codes "a") holder.store)
expire_lem_example = expire_lem (9 * second) holder (codes "a") holder-Unique

-- A node with buckets of one contact, one of which holds node 2.
abbrev start : RoutingTable
start = new_routing_table (id_of 1) 1

abbrev pub crowded : Node
crowded = record node { routing_table = left start (table_add_node 5 (contact 2) start) }

crowded_self : crowded.routing_table.self_id ≡ id_of 1
unfolding new new_routing_table table_add_node Bytes-discrete bucket_index
    agent_dns.Dht.NodeId.leading_zeros agent_dns.Dht.NodeId.distance
    agent_dns.Dht.Bucket.add_or_update
crowded_self = refl

crowded_own : crowded.routing_table.self_id ≡ crowded.self_id
unfolding new
crowded_own = crowded_self

pub crowded-IsValid : IsValid crowded
unfolding new
crowded-IsValid = record {
  table =
      left-IsValid 5 (contact 2) start (id_of-IsNodeId 2 (omega arith))
        (new_routing_table-IsValid (id_of 1) 1 (id_of-IsNodeId 1 (omega arith)) (omega arith));
  own = crowded_own;
}
