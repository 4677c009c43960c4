-- ===== src/Dht.antt =====
-- internal/dht: the Kademlia-style distributed hash table.
pub mod NodeId
pub mod Bucket
pub mod Routing
pub mod Node
pub mod Lookup
