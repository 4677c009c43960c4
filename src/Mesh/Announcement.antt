-- ===== src/Mesh/Announcement.antt =====
-- internal/models/gossip.go, `GossipAnnouncement`, and the two switches on its texts. The structures
-- that gossip only copies (capability summary, pricing, developer proof) are carried as their JSON,
-- `none` for a nil pointer.
use agent_dns.Prelude.{ℕ, Bool, false, List, [], Option, none, Bytes, Bytes-discrete, codes, ite}

pub record Announcement : Type 0 where
  pub type : Bytes
  pub entity_id : Bytes
  pub name : Bytes
  pub category : Bytes
  pub tags : List Bytes
  pub summary : Bytes
  pub capability_summary : Option Bytes
  pub home_registry : Bytes
  pub entity_url : Bytes
  pub action : Bytes
  pub status : Bytes
  pub entity_type : Bytes
  pub service_endpoint : Bytes
  pub openapi_url : Bytes
  pub entity_pricing : Option Bytes
  pub timestamp : Bytes
  pub origin_public_key : Bytes
  pub signature : Bytes
  pub hop_count : ℕ
  pub max_hops : ℕ
  pub developer_id : Bytes
  pub developer_public_key : Bytes
  pub developer_proof : Option Bytes
  pub profile_url : Bytes
  pub github : Bytes
  pub public_key : Bytes
  pub dev_handle : Bytes
  pub dev_handle_verified : Bool
  pub verification_method : Bytes
  pub fqan : Bytes
  pub agent_name_zns : Bytes
  pub registry_host : Bytes
  pub version : Bytes
  pub capability_tags : List Bytes
  pub domain : Bytes
  pub ed25519_public_key : Bytes
  pub tls_spki_fingerprint : Bytes
  pub verification_tier : Bytes
  pub attester_id : Bytes
  pub subject_id : Bytes
  pub verified_layers : List Bytes

-- The zero value of the structure.
abbrev pub blank : Announcement
blank = record {
  type = [];
  entity_id = [];
  name = [];
  category = [];
  tags = [];
  summary = [];
  capability_summary = none;
  home_registry = [];
  entity_url = [];
  action = [];
  status = [];
  entity_type = [];
  service_endpoint = [];
  openapi_url = [];
  entity_pricing = none;
  timestamp = [];
  origin_public_key = [];
  signature = [];
  hop_count = 0;
  max_hops = 0;
  developer_id = [];
  developer_public_key = [];
  developer_proof = none;
  profile_url = [];
  github = [];
  public_key = [];
  dev_handle = [];
  dev_handle_verified = false;
  verification_method = [];
  fqan = [];
  agent_name_zns = [];
  registry_host = [];
  version = [];
  capability_tags = [];
  domain = [];
  ed25519_public_key = [];
  tls_spki_fingerprint = [];
  verification_tier = [];
  attester_id = [];
  subject_id = [];
  verified_layers = [];
}

-- The cases of `switch ann.Type`; the last is the default.
pub data Kind : Type 0 where
  developer_announce dev_handle name_binding registry_proof peer_attestation agent_announce : Kind

unfoldable pub kind_of : Bytes → Kind
kind_of t = ite (Bytes-discrete t (codes "developer_announce")) Kind.developer_announce (
    ite (Bytes-discrete t (codes "dev_handle")) Kind.dev_handle (
      ite (Bytes-discrete t (codes "name_binding")) Kind.name_binding (
        ite (Bytes-discrete t (codes "registry_proof")) Kind.registry_proof (
          ite (Bytes-discrete t (codes "peer_attestation")) Kind.peer_attestation
            Kind.agent_announce))))

-- The words that the inner switches know, and any other.
pub data Action : Type 0 where
  register update deregister agent_status claim verify release version publish attest : Action
  unknown : Action

unfoldable pub action_of : Bytes → Action
action_of a = ite (Bytes-discrete a (codes "register")) Action.register (
    ite (Bytes-discrete a (codes "update")) Action.update (
      ite (Bytes-discrete a (codes "deregister")) Action.deregister (
        ite (Bytes-discrete a (codes "agent_status")) Action.agent_status (
          ite (Bytes-discrete a (codes "claim")) Action.claim (
            ite (Bytes-discrete a (codes "verify")) Action.verify (
              ite (Bytes-discrete a (codes "release")) Action.release (
                ite (Bytes-discrete a (codes "version")) Action.version (
                  ite (Bytes-discrete a (codes "publish")) Action.publish
                    (ite (Bytes-discrete a (codes "attest")) Action.attest Action.unknown)))))))))
