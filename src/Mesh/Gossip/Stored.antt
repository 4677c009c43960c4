-- ===== src/Mesh/Gossip/Stored.antt =====
-- internal/mesh/gossip.go: a registration from the registry that announces it to the table of another one.
use agent_dns.Mesh.Announcement.{Announcement}
use agent_dns.Mesh.Gossip.Create.{RegistryRecord}
use agent_dns.Mesh.Gossip.Created.{Created}
use agent_dns.Mesh.Rows.{EntityRow, GossipStore}
use agent_dns.Prelude.{◌≡◌, false, some, Bytes, codes}

-- What an agent's announcement says of the agent.
record Tells (registry_id pub_key verb : Bytes) (agent : RegistryRecord) (ann : Announcement)
    : Type 0 where
  kind : ann.type ≡ codes "agent_announce"
  action : ann.action ≡ verb
  key : ann.entity_id ≡ agent.entity_id
  name : ann.name ≡ agent.name
  category : ann.category ≡ agent.category
  tags : ann.tags ≡ agent.tags
  summary : ann.summary ≡ agent.summary
  entity_url : ann.entity_url ≡ agent.entity_url
  service_endpoint : ann.service_endpoint ≡ agent.service_endpoint
  home : ann.home_registry ≡ registry_id
  origin : ann.origin_public_key ≡ pub_key

-- The row of an agent that another registry has registered.
pub record IsRowOf (registry_id pub_key : Bytes) (agent : RegistryRecord) (row : EntityRow)
    : Type 0 where
  pub name : row.name ≡ agent.name
  pub category : row.category ≡ agent.category
  pub tags : row.tags ≡ agent.tags
  pub summary : row.summary ≡ agent.summary
  pub entity_url : row.entity_url ≡ agent.entity_url
  pub service_endpoint : row.service_endpoint ≡ agent.service_endpoint
  pub home_registry : row.home_registry ≡ registry_id
  pub pin : row.origin_public_key ≡ some pub_key
  pub status : row.status ≡ codes "active"
  pub tombstoned : row.tombstoned ≡ false
