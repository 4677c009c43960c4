-- ===== src/Lib.antt =====
-- A verification library for agent-dns, a registry of agents whose nodes find each other in a
-- Kademlia table and exchange signed announcements.
--
-- The parts and how they interact:
--   Dht.NodeId (with Hex, Value, Bits, Metric): internal/dht/types.go. `NodeID` is the list of its 32
--     bytes; `Distance`, `Less`, `LeadingZeros`, `Hex` and `NodeIDFromAgentID` are `distance`,
--     `less`, `leading_zeros`, `hex` and `node_id_from_agent_id`.
--   Dht.Bucket and Dht.Routing: internal/dht/routing.go, `KBucket` and `RoutingTable`. A method of the
--     table holds its mutex, so it is one function from a table to a table; `none` is a run-time panic.
--     Recency is about the order of the buckets, Interleaved about goroutines that share a table.
--   Dht.Node: internal/dht/dht.go. A node has a routing table and a store of records. `AddNode` pings
--     the contact that a full bucket gives up, `HandleMessage` adds the sender and answers. The
--     transport is the parameter `send`, any function at all: no property assumes anything of it. An
--     operation is given as it runs while no other does on the node, although the code holds no lock
--     while it waits for a peer; Dht.Node.Overlap is about two calls of `AddNode` at once.
--   Dht.Lookup: internal/dht/dht.go, the iterative lookups, `Store` and `republish`. The peers and the
--     scheduler are a list of rounds, each the responses in the order in which they arrive; the list
--     ends with the lookup's timeout, so it bounds the loop, and every list is allowed. Batches is about
--     whom the rounds ask, Near and Rounds about the result, Answers and Found about values.
--   Zns.Name and Zns.Fqan: internal/zns/validate.go. Texts are lists of bytes.
--   Mesh.Announcement and Mesh.Rows: internal/models/gossip.go, and the tables that gossip writes.
--   Mesh.GossipStore: the operations of internal/store/postgres.go that gossip handling calls, each as
--     the effect of its SQL. Whether a call fails is a flag that the caller is given.
--   Mesh.Actions and Mesh.Gossip: internal/mesh/gossip.go. Actions has the switch on the type and the
--     action of an announcement, Gossip the guards before it and what follows it, Gossip.Create the
--     functions that create announcements, Gossip.Stored follows one of these to another registry. Callbacks and events are a list of effects.
--   Mesh.Bloom: internal/mesh/bloom.go. A filter is its bits, its size and its number of hashes; FNV-1 and
--     FNV-1a are written out with their products modulo 2^64.
--   Mesh.Peers: internal/mesh/peers.go, `PeerManager`. Choice is about `GetRelevantPeers`, which reads the
--     bloom filters, Capacity about `AddPeer` and `evictOldest`.
--   Mesh.Transport: internal/mesh/transport.go, the table of connections. A goroutine's critical sections are
--     the steps of a relation. Table is about each of them, Runs about every interleaving, Lost about two
--     connections of one peer.
--   Events: internal/events/bus.go. Channels are numbers with a heap, whose buffers hold 256 events. Channels is
--     about the bus, Served about one channel, Delivery about any run of calls.
--   Search.Tokens and Search.Keyword: internal/search/keyword.go. Frequencies is about the maps of counts,
--     Corpus about `IndexDocument` and `RemoveDocument`, Hits about `Search`. A text is its runes.
--   Search.Engine, Search.Sources and Search.Response: internal/search/engine.go. Engine has the request's
--     filters and the exact match, Sources `searchLocal` and `searchGossip`, Response the rest of
--     `Search`. What the indexes, the store, the peers and the card fetcher return is given.
--     Sources.Relevant and Sources.Exact are about the candidates, Response.Pages about paging.
--   Ranking: internal/ranking/ranking.go.
--   Mesh.Protocol: internal/mesh/protocol.go. A connection is its bytes.
--   Api.Limits and Api.Webhook: internal/api/middleware.go. Window is about one minute of a rate limiter,
--     Shares about its whole life.
--   Cards.Lru: internal/card/cache.go. Elements of the eviction list are numbers, and a heap gives their
--     entries. Recency states what the cache promises, Race what two overlapping calls do to it.
--   Prelude: lists, texts, maps as association lists, sorting and XOR, as all parts use them.
--   Tests: each property at a concrete input.
--
-- Conventions: a time is a number, in nanoseconds in Dht.Node, Cards and Api and in seconds in the rest, and is an
-- argument of the function that reads the clock. Counters that the code keeps in an `int` are natural
-- numbers; none comes near a machine's bound, but a negative hop count in a received announcement is
-- outside the model. Recursion is structural; `exchange_sort` counts as many rounds as the list is long, and the
-- client of Search.Response.Pages has fuel for its pages, with the bound that is enough.
--
-- Parameters: `json.Marshal` on announcements is `marshal`, `identity.Verify` is `verify`, with false
-- for an error, and `signFn` is `sign`. What a property needs of them stands among its hypotheses.
--
-- In Search, `unicode.ToLower` outside of ASCII is `unicode`, and the arithmetic on scores is a `Scoring`
-- or a `Numbers`. In Mesh.Protocol `marshal` and `unmarshal` are `encoding/json`.
--
-- Not modelled: the loops that wait on tickers, the transport's sockets, dialling and
-- handshake messages and its dispatch of messages, the floating-point
-- sizing of a bloom filter, the other tables of internal/store, the embedders and the second keyword
-- index of internal/search, the handlers of internal/api, and internal/cache, config and identity.
--
pub mod Prelude
pub mod Dht
pub mod Events
pub mod Zns
pub mod Mesh
pub mod Ranking
pub mod Search
pub mod Cards
pub mod Api
pub mod Tests
