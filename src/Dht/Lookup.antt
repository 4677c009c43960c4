-- ===== src/Dht/Lookup.antt =====
-- internal/dht/dht.go: the iterative lookups, `Store`, `FindValue`, `FindNode` and `republish`. What the
-- scheduler and the peers do in a lookup until its timeout is a list of rounds: in each, the
-- responses that arrive, in the order in which they arrive, and whether all of them do before the
-- timeout. The list ends where the timeout strikes before the first response of a round. Every run of
-- the loop is one of such a list, since the timeout ends it.
pub mod Nearest
pub mod Batches
pub mod Near
pub mod Rounds
pub mod Answers
pub mod Found
use agent_dns.Dht.Bucket.{NodeContact}
use agent_dns.Dht.Node.{
  Node, Message, MsgType, EntityDhtRecord, StoredRecord, Config, store_local, get_local, message,
}
use agent_dns.Dht.NodeId.Hex.{hex_decode}
use agent_dns.Dht.NodeId.{NodeId, node_id_from_bytes}
use agent_dns.Dht.Routing.{RoutingTable, find_closest, closer, first}
use agent_dns.Prelude.Sort.{sort}
use agent_dns.Prelude.{
  ℕ, Bool, true, false, List, [], ◌∷◌, ◌++◌, map, Option, none, some, Bytes, Bytes-discrete, ite,
  if◌then◌else◌,
}

pub record Round : Type 0 where
  -- A response, or `none` for an error of the transport.
  pub received : List (Option Message)
  pub complete : Bool

-- `m[id]` of a `map[NodeID]bool` that only ever gets true.
unfoldable pub is_in : NodeId → List NodeId → Bool
is_in id [] = false
is_in id (j ∷ ids) = ite (Bytes-discrete j id) true (is_in id ids)

-- The contacts of a list that are not in the map: `toQuery` before it is cut, and the nodes of a
-- response that are kept.
unfoldable pub without : List NodeId → List NodeContact → List NodeContact
unfolding is_in
without ids [] = []
without ids (n ∷ ns) = let rest = without ids ns in if is_in n.id ids then rest else n ∷ rest

-- `n.ID == d.selfID || queried[n.ID]`.
abbrev pub kept : NodeId → List NodeId → List NodeContact → List NodeContact
kept self queried nodes = without (self ∷ queried) nodes

abbrev pub nodes_of : Option Message → List NodeContact
nodes_of none = []
nodes_of (some response) = response.nodes

unfoldable pub collect : NodeId → List NodeId → List (Option Message) → List NodeContact
unfolding without
collect self queried [] = []
collect self queried (r ∷ rs) = kept self queried (nodes_of r) ++ collect self queried rs

abbrev pub ids_of : List NodeContact → List NodeId
ids_of = map (λ n. n.id)

abbrev pub to_query : ℕ → List NodeId → List NodeContact → List NodeContact
to_query alpha queried result = first alpha (without queried result)

abbrev pub cut : NodeId → ℕ → List NodeContact → List NodeContact
cut target k result = first k (sort (closer target) result)

-- A round that asks `asked` and gets `new`: nobody is left to ask, the timeout, no new contact, or on
-- to the rest of the loop. With the result, the contacts that each round asks.
abbrev pub proceed :
    List NodeContact
    → List NodeContact
    → Bool
    → List NodeContact
    → List NodeContact × List (List NodeContact)
    → List NodeContact × List (List NodeContact)
proceed [] new complete result rest = (result, [])
proceed (a ∷ asked) new false result rest = (result ++ new, (a ∷ asked) ∷ [])
proceed (a ∷ asked) [] true result rest = (result, (a ∷ asked) ∷ [])
proceed (a ∷ asked) (n ∷ new) true result rest = (rest.0, (a ∷ asked) ∷ rest.1)

-- The loop: the result at its end, and the contacts that were queried, round by round.
unfoldable pub find_rounds :
    NodeId
    → NodeId
    → ℕ
    → ℕ
    → List Round
    → List NodeId
    → List NodeContact
    → List NodeContact × List (List NodeContact)
unfolding without collect sort
find_rounds self target alpha k [] queried result = (result, to_query alpha queried result ∷ [])
find_rounds self target alpha k (r ∷ rounds) queried result =
    let asked = to_query alpha queried result in
    let queried' = ids_of asked ++ queried in
    let new = collect self queried' r.received in
    let rest = find_rounds self target alpha k rounds queried' (cut target k (result ++ new)) in
    proceed asked new r.complete result rest

-- `deduped`: the first contact of each identifier that is not in `seen`.
unfoldable pub dedup : List NodeId → List NodeContact → List NodeContact
unfolding is_in
dedup seen [] = []
dedup seen (n ∷ ns) = elim (is_in n.id seen) [
  | true ↦ dedup seen ns
  | false ↦ n ∷ dedup (n.id ∷ seen) ns
]

-- The contacts that `iterativeFindNode` returns, and those that it queries, round by round.
unfoldable pub iterative_find_node :
    List Round → NodeId → Node → List NodeContact × List (List NodeContact)
unfolding find_rounds dedup sort
iterative_find_node rounds target d =
    let closest = find_closest target d.config.alpha d.routing_table in
    let (result, asked) =
      find_rounds d.self_id target d.config.alpha d.config.k rounds (d.self_id ∷ []) closest in
    elim closest [ [] ↦ ([], []) | _ ∷ _ ↦ (cut target d.config.k (dedup [] result), asked) ]

-- The messages of a store: `STORE` to each of the contacts.
abbrev pub stores :
    NodeId → EntityDhtRecord → List NodeContact → List (Bytes × NodeId × EntityDhtRecord)
stores key content nodes = map (λ n. (n.address, key, content)) nodes

-- `Store`: the node, and the store requests that are sent, as address, key and record.
unfoldable pub store :
    ℕ
    → List Round
    → NodeId
    → EntityDhtRecord
    → Node
    → Node × List (Bytes × NodeId × EntityDhtRecord)
unfolding store_local iterative_find_node
store now rounds key content d =
    let d' = store_local now key content d in
    (d', stores key content (iterative_find_node rounds key d').0)

-- What a response to a value request holds.
abbrev pub value_of : Option Message → Option EntityDhtRecord
value_of none = none
value_of (some response) = response.value

-- The responses of a round up to the first one with a value: that value, or the nodes of all.
abbrev pub first_value : List (Option Message) → Option EntityDhtRecord
first_value [] = none
first_value (r ∷ rs) = elim (value_of r) [ none ↦ first_value rs | some v ↦ some v ]

-- A round of the value lookup, as `proceed`.
abbrev pub proceed_value :
    List NodeContact
    → List NodeContact
    → Bool
    → Option EntityDhtRecord
    → Option EntityDhtRecord
    → Option EntityDhtRecord
proceed_value [] new complete found rest = none
proceed_value (a ∷ asked) new complete (some v) rest = some v
proceed_value (a ∷ asked) new false none rest = none
proceed_value (a ∷ asked) [] true none rest = none
proceed_value (a ∷ asked) (n ∷ new) true none rest = rest

unfoldable pub value_rounds :
    NodeId → NodeId → ℕ → ℕ → List Round → List NodeId → List NodeContact → Option EntityDhtRecord
unfolding without collect sort
value_rounds self key alpha k [] queried candidates = none
value_rounds self key alpha k (r ∷ rounds) queried candidates =
    let asked = to_query alpha queried candidates in
    let queried' = ids_of asked ++ queried in
    let new = collect self queried' r.received in
    let rest = value_rounds self key alpha k rounds queried' (cut key k (candidates ++ new)) in
    proceed_value asked new r.complete (first_value r.received) rest

-- A value that is found is cached in the local store.
abbrev pub cached : ℕ → NodeId → Option EntityDhtRecord → Node → Node × Option EntityDhtRecord
cached now key none d = (d, none)
cached now key (some v) d = (store_local now key v d, some v)

unfoldable pub iterative_find_value : ℕ → List Round → NodeId → Node → Node × Option EntityDhtRecord
unfolding value_rounds
iterative_find_value now rounds key d =
    let closest = find_closest key d.config.alpha d.routing_table in
    let found =
      value_rounds d.self_id key d.config.alpha d.config.k rounds (d.self_id ∷ []) closest in
    elim closest [ [] ↦ (d, none) | _ ∷ _ ↦ cached now key found d ]

unfoldable pub find_value : ℕ → List Round → NodeId → Node → Node × Option EntityDhtRecord
unfolding get_local iterative_find_value
find_value now rounds key d = elim (get_local key d) [
  | some v ↦ (d, some v)
  | none ↦ iterative_find_value now rounds key d
]

-- The identifier that a key of the store stands for. The code ignores the decoder's error, which no
-- key that `Store` wrote gives; it counts as no bytes here.
abbrev pub key_of : Option Bytes → NodeId
key_of none = node_id_from_bytes []
key_of (some b) = node_id_from_bytes b

-- `republish`: the store requests that are sent for the records of the store, with the rounds of the
-- lookup for each record.
unfoldable pub republish_entries :
    (NodeId → List Round)
    → Node
    → List (Bytes × StoredRecord)
    → List (Bytes × NodeId × EntityDhtRecord)
unfolding hex_decode iterative_find_node
republish_entries rounds d [] = []
republish_entries rounds d ((hex_key, sr) ∷ entries) =
    let key = key_of (hex_decode hex_key) in
    stores key sr.content (iterative_find_node (rounds key) key d).0
    ++ republish_entries rounds d entries

unfoldable pub republish : (NodeId → List Round) → Node → List (Bytes × NodeId × EntityDhtRecord)
unfolding republish_entries
republish rounds d = republish_entries rounds d d.store
