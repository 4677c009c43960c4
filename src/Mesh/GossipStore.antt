-- ===== src/Mesh/GossipStore.antt =====
-- internal/store/postgres.go, the operations on the tables that gossip writes: an operation states
-- what its SQL does where the database accepts it.
use agent_dns.Prelude.Assoc.{lookup, insert}
use agent_dns.Mesh.Rows.{
  GossipEntry, EntityRow, GossipDeveloperEntry, DeveloperRow, ZnsRow, ProofRow, AttestationRow,
  GossipStore,
}
use agent_dns.Prelude.{
  ℕ, suc, true, false, List, [], ◌∷◌, Option, none, some, Bytes, Bytes-discrete, codes, ite, ◌≡◌,
  ap,
}

Pair-path : {a b c d : Bytes} → Dec (a ≡ c) → Dec (b ≡ d) → Dec (Path (Bytes × Bytes) (a, b) (c, d))
Pair-path (yes p) (yes q) = yes (λ i. (p i, q i))
Pair-path (yes p) (no n) = no (λ e. n (ap (λ x. x.1) e))
Pair-path (no n) q = no (λ e. n (ap (λ x. x.0) e))

unfoldable pub Pair-discrete : Discrete (Bytes × Bytes)
unfolding Pair-path Bytes-discrete
Pair-discrete (a, b) (c, d) = Pair-path (Bytes-discrete a c) (Bytes-discrete b d)

-- `nilIfEmpty`.
abbrev pub nil_if_empty : Bytes → Option Bytes
nil_if_empty [] = none
nil_if_empty (c ∷ s) = some (c ∷ s)

abbrev pub or_text : Bytes → Bytes → Bytes
or_text [] d = d
or_text (c ∷ s) d = c ∷ s

-- `COALESCE(a, b)`.
abbrev pub coalesce : Option Bytes → Option Bytes → Option Bytes
coalesce none b = b
coalesce (some a) b = some a

-- `UPDATE … SET … WHERE key = k`.
unfoldable pub update_row {ℓ} : {V : Type ℓ} → (V → V) → Bytes → List (Bytes × V) → List (Bytes × V)
update_row f k [] = []
update_row f k ((j, v) ∷ m) =
    ite (Bytes-discrete j k) ((j, f v) ∷ update_row f k m) ((j, v) ∷ update_row f k m)

-- `UpsertGossipEntry`: the row that is inserted.
abbrev pub fresh_row : GossipEntry → EntityRow
fresh_row e = record {
  name = e.name;
  category = e.category;
  tags = e.tags;
  summary = e.summary;
  home_registry = e.home_registry;
  entity_url = e.entity_url;
  received_at = e.received_at;
  tombstoned = e.tombstoned;
  tombstone_at = none;
  developer_id = nil_if_empty e.developer_id;
  developer_public_key = nil_if_empty e.developer_public_key;
  developer_proof = e.developer_proof;
  origin_public_key = nil_if_empty e.origin_public_key;
  status = or_text e.status (codes "inactive");
  entity_type = or_text e.entity_type (codes "agent");
  service_endpoint = e.service_endpoint;
  openapi_url = e.openapi_url;
  entity_pricing = e.entity_pricing;
}

-- The row where the key is there already: the home registry, the tombstone and a pinned origin key
-- stay.
abbrev pub merged_row : EntityRow → Option EntityRow → EntityRow
merged_row new none = new
merged_row new (some old) = record new {
  home_registry = old.home_registry;
  tombstoned = old.tombstoned;
  tombstone_at = old.tombstone_at;
  origin_public_key = coalesce old.origin_public_key new.origin_public_key;
}

unfoldable pub upsert_gossip_entry : GossipEntry → GossipStore → GossipStore
upsert_gossip_entry e st = record st {
  entities =
      insert Bytes-discrete e.entity_id
        (merged_row (fresh_row e) (lookup Bytes-discrete e.entity_id st.entities)) st.entities;
}

unfoldable pub get_gossip_entry : Bytes → GossipStore → Option EntityRow
get_gossip_entry id st = lookup Bytes-discrete id st.entities

unfoldable pub tombstone_gossip_entry : Bytes → Bytes → GossipStore → GossipStore
unfolding update_row
tombstone_gossip_entry now id st = record st {
  entities =
      update_row (λ r. record r { tombstoned = true; tombstone_at = some now }) id st.entities;
}

unfoldable pub update_gossip_entry_status : Bytes → Bytes → GossipStore → GossipStore
unfolding update_row
update_gossip_entry_status id status st = record st {
  entities = update_row (λ r. record r { status = status }) id st.entities;
}

-- `UpsertGossipDeveloper` has no columns for the handle.
abbrev pub developer_row : GossipDeveloperEntry → Option DeveloperRow → DeveloperRow
developer_row e none = record {
  name = e.name;
  public_key = e.public_key;
  profile_url = e.profile_url;
  github = e.github;
  home_registry = e.home_registry;
  received_at = e.received_at;
  tombstoned = e.tombstoned;
  tombstone_at = none;
}
developer_row e (some old) = record old {
  name = e.name;
  public_key = e.public_key;
  profile_url = e.profile_url;
  github = e.github;
  received_at = e.received_at;
}

unfoldable pub upsert_gossip_developer : GossipDeveloperEntry → GossipStore → GossipStore
upsert_gossip_developer e st = record st {
  developers =
      insert Bytes-discrete e.developer_id
        (developer_row e (lookup Bytes-discrete e.developer_id st.developers)) st.developers;
}

unfoldable pub tombstone_gossip_developer : Bytes → Bytes → GossipStore → GossipStore
unfolding update_row
tombstone_gossip_developer now id st = record st {
  developers =
      update_row (λ r. record r { tombstoned = true; tombstone_at = some now }) id st.developers;
}

-- `UpsertGossipZNSName` writes every column and clears the tombstone.
unfoldable pub upsert_gossip_zns_name : Bytes → ZnsRow → GossipStore → GossipStore
upsert_gossip_zns_name fqan row st = record st {
  zns_names = insert Bytes-discrete fqan (record row { tombstoned = false }) st.zns_names;
}

unfoldable pub tombstone_gossip_zns_name : Bytes → GossipStore → GossipStore
unfolding update_row
tombstone_gossip_zns_name fqan st = record st {
  zns_names = update_row (λ r. record r { tombstoned = true }) fqan st.zns_names;
}

unfoldable pub upsert_registry_proof : Bytes → ProofRow → GossipStore → GossipStore
upsert_registry_proof id row st = record st { proofs = insert Bytes-discrete id row st.proofs }

unfoldable pub update_registry_verification_tier : Bytes → Bytes → GossipStore → GossipStore
unfolding update_row
update_registry_verification_tier id tier st = record st {
  proofs = update_row (λ r. record r { verification_tier = tier }) id st.proofs;
}

unfoldable pub create_peer_attestation : Bytes → Bytes → AttestationRow → GossipStore → GossipStore
create_peer_attestation attester subject row st = record st {
  attestations = insert Pair-discrete (attester, subject) row st.attestations;
}

-- `SELECT COUNT(*) … WHERE subject_id = $1`.
unfoldable pub count_of : Bytes → List ((Bytes × Bytes) × AttestationRow) → ℕ
count_of subject [] = 0
count_of subject (((a, s), r) ∷ m) =
    ite (Bytes-discrete s subject) (suc (count_of subject m)) (count_of subject m)

unfoldable pub count_peer_attestations : Bytes → GossipStore → ℕ
unfolding count_of
count_peer_attestations subject st = count_of subject st.attestations
