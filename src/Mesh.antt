-- ===== src/Mesh.antt =====
-- internal/mesh: how registries exchange announcements and route searches.
pub mod Announcement
pub mod Rows
pub mod GossipStore
pub mod Actions
pub mod Gossip
pub mod Bloom
pub mod Peers
pub mod Protocol
pub mod Transport
