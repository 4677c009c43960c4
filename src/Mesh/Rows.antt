-- ===== src/Mesh/Rows.antt =====
-- internal/models/gossip.go and the tables of internal/store/postgres.go that gossip writes: a table
-- is an association list from its key to the columns of its row. A column that may be NULL is an
-- option.
use agent_dns.Prelude.{Bool, List, Option, Bytes}

pub record GossipEntry : Type 0 where
  pub entity_id : Bytes
  pub name : Bytes
  pub category : Bytes
  pub tags : List Bytes
  pub summary : Bytes
  pub home_registry : Bytes
  pub entity_url : Bytes
  pub received_at : Bytes
  pub tombstoned : Bool
  pub developer_id : Bytes
  pub developer_public_key : Bytes
  pub developer_proof : Option Bytes
  pub origin_public_key : Bytes
  pub status : Bytes
  pub entity_type : Bytes
  pub service_endpoint : Bytes
  pub openapi_url : Bytes
  pub entity_pricing : Option Bytes

-- A row of `gossip_entities`, behind its `entity_id`.
pub record EntityRow : Type 0 where
  pub name : Bytes
  pub category : Bytes
  pub tags : List Bytes
  pub summary : Bytes
  pub home_registry : Bytes
  pub entity_url : Bytes
  pub received_at : Bytes
  pub tombstoned : Bool
  pub tombstone_at : Option Bytes
  pub developer_id : Option Bytes
  pub developer_public_key : Option Bytes
  pub developer_proof : Option Bytes
  pub origin_public_key : Option Bytes
  pub status : Bytes
  pub entity_type : Bytes
  pub service_endpoint : Bytes
  pub openapi_url : Bytes
  pub entity_pricing : Option Bytes

pub record GossipDeveloperEntry : Type 0 where
  pub developer_id : Bytes
  pub name : Bytes
  pub public_key : Bytes
  pub profile_url : Bytes
  pub github : Bytes
  pub home_registry : Bytes
  pub received_at : Bytes
  pub tombstoned : Bool
  pub dev_handle : Bytes
  pub dev_handle_verified : Bool
  pub verification_method : Bytes

-- A row of `gossip_developers`, behind its `developer_id`.
pub record DeveloperRow : Type 0 where
  pub name : Bytes
  pub public_key : Bytes
  pub profile_url : Bytes
  pub github : Bytes
  pub home_registry : Bytes
  pub received_at : Bytes
  pub tombstoned : Bool
  pub tombstone_at : Option Bytes

-- A row of `gossip_zns_names`, behind its `fqan`.
pub record ZnsRow : Type 0 where
  pub entity_name : Bytes
  pub developer_handle : Bytes
  pub registry_host : Bytes
  pub entity_id : Bytes
  pub current_version : Bytes
  pub capability_tags : List Bytes
  pub received_at : Bytes
  pub tombstoned : Bool

-- A row of `registry_identity_proofs`, behind its `registry_id`.
pub record ProofRow : Type 0 where
  pub domain : Bytes
  pub ed25519_public_key : Bytes
  pub tls_spki_fingerprint : Bytes
  pub signature : Bytes
  pub verification_tier : Bytes
  pub issued_at : Bytes
  pub expires_at : Bytes
  pub received_at : Bytes

-- A row of `peer_attestations`, behind its attester and subject.
pub record AttestationRow : Type 0 where
  pub verified_layers : List Bytes
  pub attested_at : Bytes
  pub signature : Bytes

pub record GossipStore : Type 0 where
  pub entities : List (Bytes × EntityRow)
  pub developers : List (Bytes × DeveloperRow)
  pub zns_names : List (Bytes × ZnsRow)
  pub proofs : List (Bytes × ProofRow)
  pub attestations : List ((Bytes × Bytes) × AttestationRow)
