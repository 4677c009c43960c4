-- ===== src/Mesh/Gossip/Create.antt =====
-- internal/mesh/gossip.go: the announcements that a registry creates, under its identifier, its
-- public key and `now`, the time as text. `marshal` is `json.Marshal` on announcements, its error
-- ignored, and `sign` is `signFn`.
use agent_dns.Mesh.Announcement.{Announcement, blank}
use agent_dns.Mesh.Gossip.{GossipHandler}
use agent_dns.Prelude.{Bool, List, [], ◌∷◌, Option, none, some, Bytes, codes}

-- What the announcement copies of a registry record: the developer proof with the developer's public
-- key in it, both as texts.
pub record RegistryRecord : Type 0 where
  pub entity_id : Bytes
  pub name : Bytes
  pub category : Bytes
  pub tags : List Bytes
  pub summary : Bytes
  pub entity_url : Bytes
  pub entity_type : Bytes
  pub service_endpoint : Bytes
  pub openapi_url : Bytes
  pub entity_pricing : Option Bytes
  pub developer_id : Bytes
  pub developer_proof : Option (Bytes × Bytes)

pub record DeveloperRecord : Type 0 where
  pub developer_id : Bytes
  pub name : Bytes
  pub public_key : Bytes
  pub profile_url : Bytes
  pub github : Bytes

pub record ZnsName : Type 0 where
  pub fqan : Bytes
  pub entity_name : Bytes
  pub developer_handle : Bytes
  pub registry_host : Bytes
  pub entity_id : Bytes
  pub developer_id : Bytes
  pub current_version : Bytes
  pub capability_tags : List Bytes

pub record RegistryIdentityProof : Type 0 where
  pub domain : Bytes
  pub ed25519_public_key : Bytes
  pub tls_spki_fingerprint : Bytes
  pub verification_tier : Bytes

pub record PeerAttestation : Type 0 where
  pub attester_id : Bytes
  pub subject_id : Bytes
  pub verified_layers : List Bytes

-- The developer's fields of an agent's announcement.
abbrev pub with_proof : Option (Bytes × Bytes) → Announcement → Announcement
with_proof none ann = ann
with_proof (some (proof, key)) ann = record ann {
  developer_public_key = key;
  developer_proof = some proof;
}

abbrev pub with_developer : Bytes → Option (Bytes × Bytes) → Announcement → Announcement
with_developer [] proof ann = ann
with_developer (c ∷ id) proof ann = with_proof proof (record ann { developer_id = c ∷ id })

abbrev pub or_nil : Option Bytes → Bytes
or_nil none = []
or_nil (some text) = text

module _ (marshal : Announcement → Option Bytes) (sign : Bytes → Bytes)
    (registry_id pub_key now : Bytes) where
  -- `data, _ := json.Marshal(ann)`, and the signature of it.
  unfoldable pub sealed : Announcement → Announcement
  sealed ann = record ann { signature = sign (or_nil (marshal ann)) }

  -- The fields that every announcement has.
  unfoldable pub opened : GossipHandler → Bytes → Bytes → Announcement
  opened gh type action = record blank {
    type = type;
    home_registry = registry_id;
    action = action;
    timestamp = now;
    origin_public_key = pub_key;
    hop_count = 0;
    max_hops = gh.max_hops;
  }

  unfoldable pub create_announcement : GossipHandler → RegistryRecord → Bytes → Announcement
  unfolding sealed opened
  create_announcement gh agent action = sealed (
      with_developer agent.developer_id agent.developer_proof
        (record (opened gh (codes "agent_announce") action) {
          entity_id = agent.entity_id;
          name = agent.name;
          category = agent.category;
          tags = agent.tags;
          summary = agent.summary;
          entity_url = agent.entity_url;
          entity_type = agent.entity_type;
          service_endpoint = agent.service_endpoint;
          openapi_url = agent.openapi_url;
          entity_pricing = agent.entity_pricing;
        }))

  unfoldable pub create_developer_announcement :
      GossipHandler → DeveloperRecord → Bytes → Announcement
  unfolding sealed opened
  create_developer_announcement gh dev action =
      sealed (record (opened gh (codes "developer_announce") action) {
        name = dev.name;
        developer_id = dev.developer_id;
        public_key = dev.public_key;
        profile_url = dev.profile_url;
        github = dev.github;
      })

  unfoldable pub create_status_announcement : GossipHandler → Bytes → Bytes → Announcement
  unfolding sealed opened
  create_status_announcement gh agent_id status =
      sealed (record (opened gh (codes "agent_announce") (codes "agent_status")) {
        entity_id = agent_id;
        status = status;
      })

  unfoldable pub create_handle_announcement :
      GossipHandler → DeveloperRecord → Bytes → Bool → Bytes → Bytes → Announcement
  unfolding sealed opened
  create_handle_announcement gh dev handle verified method action =
      sealed (record (opened gh (codes "dev_handle") action) {
        developer_id = dev.developer_id;
        name = dev.name;
        public_key = dev.public_key;
        dev_handle = handle;
        dev_handle_verified = verified;
        verification_method = method;
      })

  unfoldable pub create_name_binding_announcement : GossipHandler → ZnsName → Bytes → Announcement
  unfolding sealed opened
  create_name_binding_announcement gh name action =
      sealed (record (opened gh (codes "name_binding") action) {
        fqan = name.fqan;
        agent_name_zns = name.entity_name;
        dev_handle = name.developer_handle;
        registry_host = name.registry_host;
        entity_id = name.entity_id;
        developer_id = name.developer_id;
        version = name.current_version;
        capability_tags = name.capability_tags;
      })

  unfoldable pub create_registry_proof_announcement :
      GossipHandler → RegistryIdentityProof → Bytes → Announcement
  unfolding sealed opened
  create_registry_proof_announcement gh proof action =
      sealed (record (opened gh (codes "registry_proof") action) {
        domain = proof.domain;
        ed25519_public_key = proof.ed25519_public_key;
        tls_spki_fingerprint = proof.tls_spki_fingerprint;
        verification_tier = proof.verification_tier;
      })

  unfoldable pub create_peer_attestation_announcement :
      GossipHandler → PeerAttestation → Bytes → Announcement
  unfolding sealed opened
  create_peer_attestation_announcement gh att action =
      sealed (record (opened gh (codes "peer_attestation") action) {
        attester_id = att.attester_id;
        subject_id = att.subject_id;
        verified_layers = att.verified_layers;
      })
