-- ===== src/Mesh/Actions.antt =====
-- internal/mesh/gossip.go: the `switch` of `HandleAnnouncement` on the type and the action of an
-- announcement. An arm is given the times that `time.Now` returns, in seconds and as text, and which
-- of its database calls fail.
use agent_dns.Mesh.Announcement.{Announcement, Kind, Action}
use agent_dns.Mesh.GossipStore.{
  get_gossip_entry, upsert_gossip_entry, tombstone_gossip_entry, update_gossip_entry_status,
  upsert_gossip_developer, tombstone_gossip_developer, upsert_gossip_zns_name,
  tombstone_gossip_zns_name, upsert_registry_proof, update_registry_verification_tier,
  create_peer_attestation, count_peer_attestations,
}
use agent_dns.Mesh.Rows.{GossipStore, GossipEntry, GossipDeveloperEntry, EntityRow}
use agent_dns.Prelude.{
  ℕ, Bool, true, false, [], ◌∷◌, Option, none, some, Bytes, Bytes-discrete, codes, ite, leb,
  if◌then◌else◌,
}

-- Which calls of the database fail.
pub record Faults : Type 0 where
  pub read : Bool
  pub write : Bool
  pub count : Bool
  pub tier : Bool

pub record Clock : Type 0 where
  pub seconds : ℕ
  pub text : Bytes

-- The database does nothing where it fails.
abbrev pub written : Bool → GossipStore → GossipStore → GossipStore
written true new old = old
written false new old = new

-- `verifyOriginAuthorization`, on the entry that was found.
abbrev pub authorized : Option EntityRow → Bytes → Bool → Bool
authorized none origin require_existing = if require_existing then false else true
authorized (some row) origin require_existing = elim row.origin_public_key [
  | none ↦ true
  | some [] ↦ true
  | some (c ∷ key) ↦ ite (Bytes-discrete (c ∷ key) origin) true false
]

unfoldable pub verify_origin_authorization : Faults → GossipStore → Bytes → Bytes → Bool → Bool
unfolding get_gossip_entry
verify_origin_authorization faults st agent_id origin require_existing =
    if faults.read then false else authorized (get_gossip_entry agent_id st) origin require_existing

unfoldable pub developer_entry : Clock → Announcement → GossipDeveloperEntry
developer_entry now ann = record {
  developer_id = ann.developer_id;
  name = ann.name;
  public_key = ann.public_key;
  profile_url = [];
  github = [];
  home_registry = ann.home_registry;
  received_at = now.text;
  tombstoned = false;
  dev_handle = [];
  dev_handle_verified = false;
  verification_method = [];
}

unfoldable pub on_developer : Faults → Clock → Announcement → GossipStore → Action → GossipStore
unfolding developer_entry upsert_gossip_developer tombstone_gossip_developer
on_developer faults now ann st Action.register =
    written faults.write
      (upsert_gossip_developer
        (record (developer_entry now ann) { profile_url = ann.profile_url; github = ann.github })
        st)
      st
on_developer faults now ann st Action.update =
    written faults.write
      (upsert_gossip_developer
        (record (developer_entry now ann) { profile_url = ann.profile_url; github = ann.github })
        st)
      st
on_developer faults now ann st Action.deregister =
    written faults.write (tombstone_gossip_developer now.text ann.developer_id st) st
on_developer faults now ann st _ = st

abbrev pub handle_entry : Clock → Announcement → GossipDeveloperEntry
handle_entry now ann = record (developer_entry now ann) {
  dev_handle = ann.dev_handle;
  dev_handle_verified = ann.dev_handle_verified;
  verification_method = ann.verification_method;
}

unfoldable pub on_dev_handle : Faults → Clock → Announcement → GossipStore → Action → GossipStore
unfolding developer_entry upsert_gossip_developer
on_dev_handle faults now ann st Action.claim =
    written faults.write (upsert_gossip_developer (handle_entry now ann) st) st
on_dev_handle faults now ann st Action.verify =
    written faults.write (upsert_gossip_developer (handle_entry now ann) st) st
on_dev_handle faults now ann st Action.release =
    written faults.write (upsert_gossip_developer (developer_entry now ann) st) st
on_dev_handle faults now ann st _ = st

abbrev pub bind_name : Faults → Clock → Announcement → GossipStore → GossipStore
bind_name faults now ann st =
    written faults.write
      (upsert_gossip_zns_name ann.fqan
        (record {
          entity_name = ann.agent_name_zns;
          developer_handle = ann.dev_handle;
          registry_host = ann.registry_host;
          entity_id = ann.entity_id;
          current_version = ann.version;
          capability_tags = ann.capability_tags;
          received_at = now.text;
          tombstoned = false;
        })
        st)
      st

unfoldable pub on_name_binding : Faults → Clock → Announcement → GossipStore → Action → GossipStore
unfolding upsert_gossip_zns_name tombstone_gossip_zns_name
on_name_binding faults now ann st Action.register = bind_name faults now ann st
on_name_binding faults now ann st Action.update = bind_name faults now ann st
on_name_binding faults now ann st Action.version = bind_name faults now ann st
on_name_binding faults now ann st Action.release =
    written faults.write (tombstone_gossip_zns_name ann.fqan st) st
on_name_binding faults now ann st _ = st

abbrev pub publish_proof : Faults → Clock → Announcement → GossipStore → GossipStore
publish_proof faults now ann st =
    written faults.write
      (upsert_registry_proof ann.home_registry
        (record {
          domain = ann.domain;
          ed25519_public_key = ann.ed25519_public_key;
          tls_spki_fingerprint = ann.tls_spki_fingerprint;
          signature = ann.signature;
          verification_tier = ann.verification_tier;
          issued_at = ann.timestamp;
          expires_at = ann.timestamp;
          received_at = now.text;
        })
        st)
      st

unfoldable pub on_registry_proof :
    Faults → Clock → Announcement → GossipStore → Action → GossipStore
unfolding upsert_registry_proof
on_registry_proof faults now ann st Action.publish = publish_proof faults now ann st
on_registry_proof faults now ann st Action.update = publish_proof faults now ann st
on_registry_proof faults now ann st _ = st

-- A count that fails is 0.
unfoldable pub promote : Faults → Bytes → GossipStore → GossipStore
unfolding count_peer_attestations update_registry_verification_tier
promote faults subject st =
    if leb 3 (if faults.count then 0 else count_peer_attestations subject st)
    then written faults.tier (update_registry_verification_tier subject (codes "mesh-verified") st)
        st
    else st

unfoldable pub on_peer_attestation : Faults → Announcement → GossipStore → Action → GossipStore
unfolding create_peer_attestation promote
on_peer_attestation faults ann st Action.attest = promote faults ann.subject_id (
    written faults.write
      (create_peer_attestation ann.attester_id ann.subject_id
        (record {
          verified_layers = ann.verified_layers;
          attested_at = ann.timestamp;
          signature = ann.signature;
        })
        st)
      st)
on_peer_attestation faults ann st _ = st

unfoldable pub entry_of : Clock → Announcement → GossipEntry
entry_of now ann = record {
  entity_id = ann.entity_id;
  name = ann.name;
  category = ann.category;
  tags = ann.tags;
  summary = ann.summary;
  home_registry = ann.home_registry;
  entity_url = ann.entity_url;
  received_at = now.text;
  tombstoned = false;
  developer_id = ann.developer_id;
  developer_public_key = ann.developer_public_key;
  developer_proof = ann.developer_proof;
  origin_public_key = ann.origin_public_key;
  status = codes "active";
  entity_type = ann.entity_type;
  service_endpoint = ann.service_endpoint;
  openapi_url = ann.openapi_url;
  entity_pricing = ann.entity_pricing;
}

-- An agent's announcement: `none` is `return false`, otherwise the store and whether the search
-- engine is to index it.
unfoldable pub on_agent :
    Faults → Clock → Announcement → GossipStore → Action → Option (GossipStore × Bool)
unfolding verify_origin_authorization entry_of upsert_gossip_entry tombstone_gossip_entry
    update_gossip_entry_status
on_agent faults now ann st Action.agent_status =
    if verify_origin_authorization faults st ann.entity_id ann.origin_public_key true
    then some
        (written faults.write (update_gossip_entry_status ann.entity_id ann.status st) st, false)
    else none
on_agent faults now ann st Action.register =
    some (written faults.write (upsert_gossip_entry (entry_of now ann) st) st, true)
on_agent faults now ann st Action.update =
    if verify_origin_authorization faults st ann.entity_id ann.origin_public_key false
    then some (written faults.write (upsert_gossip_entry (entry_of now ann) st) st, true)
    else none
on_agent faults now ann st Action.deregister =
    if verify_origin_authorization faults st ann.entity_id ann.origin_public_key true
    then some (written faults.write (tombstone_gossip_entry now.text ann.entity_id st) st, false)
    else none
on_agent faults now ann st _ = some (st, false)

-- The `switch` of `HandleAnnouncement`.
unfoldable pub process :
    Faults → Clock → Announcement → GossipStore → Kind → Action → Option (GossipStore × Bool)
unfolding on_developer on_dev_handle on_name_binding on_registry_proof on_peer_attestation on_agent
process faults now ann st Kind.developer_announce a = some (on_developer faults now ann st a, false)
process faults now ann st Kind.dev_handle a = some (on_dev_handle faults now ann st a, false)
process faults now ann st Kind.name_binding a = some (on_name_binding faults now ann st a, false)
process faults now ann st Kind.registry_proof a =
    some (on_registry_proof faults now ann st a, false)
process faults now ann st Kind.peer_attestation a =
    some (on_peer_attestation faults ann st a, false)
process faults now ann st Kind.agent_announce a = on_agent faults now ann st a
