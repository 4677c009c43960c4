-- ===== src/Mesh/Gossip/Pins.antt =====
-- Pinned origin keys: every operation that handling an announcement calls keeps them.
use agent_dns.Mesh.Announcement.{Announcement, Kind, Action, kind_of, action_of}
use agent_dns.Mesh.Actions.{
  Faults, Clock, process, on_agent, on_developer, on_dev_handle, on_name_binding, on_registry_proof,
  on_peer_attestation, promote, written, entry_of,
}
use agent_dns.Mesh.Gossip.{GossipHandler, accept, finish, dedup_key}
use agent_dns.Mesh.GossipStore.{
  get_gossip_entry, upsert_gossip_entry, tombstone_gossip_entry, update_gossip_entry_status,
  update_row, merged_row, fresh_row, upsert_gossip_developer, tombstone_gossip_developer,
  upsert_gossip_zns_name, tombstone_gossip_zns_name, upsert_registry_proof,
  update_registry_verification_tier, create_peer_attestation,
}
use agent_dns.Mesh.Rows.{GossipStore, GossipEntry, EntityRow}
use agent_dns.Prelude.Assoc.{lookup, insert, lookup-insert}
use agent_dns.Prelude.{
  ◌≡◌, refl, ap, ◌∙◌, Bool, true, false, List, [], ◌∷◌, Option, none, some, Bytes, Bytes-discrete,
  if◌then◌else◌, if_pos, if_neg, ite, arith,
}

-- The entry is there and its origin key is pinned.
pub record Pinned (id key : Bytes) (st : GossipStore) : Type 0 where
  pub row : EntityRow
  pub there : get_gossip_entry id st ≡ some row
  pub pin : row.origin_public_key ≡ some key

pub lookup-update_row :
    {V : Type 0} (f : V → V) (k j : Bytes) (m : List (Bytes × V)) (v : V)
    → lookup Bytes-discrete j m ≡ some v
    → lookup Bytes-discrete j (update_row f k m) ≡ some (ite (Bytes-discrete j k) (f v) v)
unfolding update_row lookup
lookup-update_row f k j [] v h = absurd (ground arith)
lookup-update_row f k j ((i, w) ∷ m) v h = ground (arith, lookup-update_row f k j m v)

pub pin_kept :
    (row : EntityRow) (key : Bytes) (new : EntityRow)
    → row.origin_public_key ≡ some key
    → (merged_row new (some row)).origin_public_key ≡ some key
pin_kept row key new h = rw h refl

pub upsert_keeps :
    (e : GossipEntry) (st : GossipStore) (id key : Bytes)
    → Pinned id key st
    → Pinned id key (upsert_gossip_entry e st)
unfolding upsert_gossip_entry get_gossip_entry
upsert_keeps e st id key p =
    let old = lookup Bytes-discrete e.entity_id st.entities in
    let read =
      lookup-insert Bytes-discrete e.entity_id id (merged_row (fresh_row e) old) st.entities in
    elim (Bytes-discrete e.entity_id id) [
      | yes same ↦ record {
        row = merged_row (fresh_row e) (some p.row);
        there =
            read
            ∙ if_pos (Bytes-discrete e.entity_id id) same _ _
            ∙ ap (λ o. some (merged_row (fresh_row e) o))
                (ap (λ i. lookup Bytes-discrete i st.entities) same ∙ p.there);
        pin = pin_kept p.row key (fresh_row e) p.pin;
      }
      | no other ↦ record {
        row = p.row;
        there = read ∙ if_neg (Bytes-discrete e.entity_id id) other _ _ ∙ p.there;
        pin = p.pin;
      }
    ]

pub update_keeps :
    (f : EntityRow → EntityRow) (k id key : Bytes) (st : GossipStore)
    → ((r : EntityRow) → (f r).origin_public_key ≡ r.origin_public_key)
    → Pinned id key st
    → Pinned id key (record st { entities = update_row f k st.entities })
unfolding get_gossip_entry
update_keeps f k id key st same p = record {
  row = ite (Bytes-discrete id k) (f p.row) p.row;
  there = lookup-update_row f k id st.entities p.row p.there;
  pin = elim (Bytes-discrete id k) [
    | yes q ↦ rw (if_pos (Bytes-discrete id k) q (f p.row) p.row) (same p.row ∙ p.pin)
    | no n ↦ rw (if_neg (Bytes-discrete id k) n (f p.row) p.row) p.pin
  ];
}

pub tombstone_keeps :
    (now k id key : Bytes) (st : GossipStore)
    → Pinned id key st
    → Pinned id key (tombstone_gossip_entry now k st)
unfolding tombstone_gossip_entry
tombstone_keeps now k id key st p = update_keeps _ k id key st (λ r. refl) p

pub status_keeps :
    (status k id key : Bytes) (st : GossipStore)
    → Pinned id key st
    → Pinned id key (update_gossip_entry_status k status st)
unfolding update_gossip_entry_status
status_keeps status k id key st p = update_keeps _ k id key st (λ r. refl) p

pub written_keeps :
    (b : Bool) (new old : GossipStore) (id key : Bytes)
    → Pinned id key new
    → Pinned id key old
    → Pinned id key (written b new old)
written_keeps true new old id key p q = q
written_keeps false new old id key p q = p

pub same_keeps :
    (id key : Bytes) (st st' : GossipStore)
    → st'.entities ≡ st.entities
    → Pinned id key st
    → Pinned id key st'
unfolding get_gossip_entry
same_keeps id key st st' e p = record {
  row = p.row;
  there = ap (lookup Bytes-discrete id) e ∙ p.there;
  pin = p.pin;
}

pub developer_entities :
    (faults : Faults) (now : Clock) (ann : Announcement) (st : GossipStore) (a : Action)
    → (on_developer faults now ann st a).entities ≡ st.entities
unfolding on_developer upsert_gossip_developer tombstone_gossip_developer
developer_entities faults now ann st a = ground arith

pub handle_entities :
    (faults : Faults) (now : Clock) (ann : Announcement) (st : GossipStore) (a : Action)
    → (on_dev_handle faults now ann st a).entities ≡ st.entities
unfolding on_dev_handle upsert_gossip_developer
handle_entities faults now ann st a = ground arith

pub name_entities :
    (faults : Faults) (now : Clock) (ann : Announcement) (st : GossipStore) (a : Action)
    → (on_name_binding faults now ann st a).entities ≡ st.entities
unfolding on_name_binding upsert_gossip_zns_name tombstone_gossip_zns_name
name_entities faults now ann st a = ground arith

pub proof_entities :
    (faults : Faults) (now : Clock) (ann : Announcement) (st : GossipStore) (a : Action)
    → (on_registry_proof faults now ann st a).entities ≡ st.entities
unfolding on_registry_proof upsert_registry_proof
proof_entities faults now ann st a = ground arith

pub promote_entities :
    (faults : Faults) (subject : Bytes) (st : GossipStore)
    → (promote faults subject st).entities ≡ st.entities
unfolding promote update_registry_verification_tier
promote_entities faults subject st = ground arith

pub attestation_entities :
    (faults : Faults) (ann : Announcement) (st : GossipStore) (a : Action)
    → (on_peer_attestation faults ann st a).entities ≡ st.entities
unfolding on_peer_attestation create_peer_attestation
attestation_entities faults ann st a = grind (arith, promote_entities)

-- The store that an announcement leaves, where it is not turned away, keeps the pin.
abbrev pub Kept : Bytes → Bytes → Option (GossipStore × Bool) → Type 0
Kept id key none = Unit
Kept id key (some (st, indexed)) = Pinned id key st

pub guarded_keeps :
    (b : Bool) (id key : Bytes) (st : GossipStore) (indexed : Bool)
    → Pinned id key st
    → Kept id key (if b then some (st, indexed) else none)
guarded_keeps true id key st indexed p = p
guarded_keeps false id key st indexed p = tt

pub entry_keeps :
    (faults : Faults) (now : Clock) (ann : Announcement) (st : GossipStore) (id key : Bytes)
    → Pinned id key st
    → Pinned id key (written faults.write (upsert_gossip_entry (entry_of now ann) st) st)
entry_keeps faults now ann st id key p =
    written_keeps faults.write _ st id key (upsert_keeps (entry_of now ann) st id key p) p

pub agent_keeps :
    (faults : Faults) (now : Clock) (ann : Announcement) (st : GossipStore) (a : Action)
    (id key : Bytes)
    → Pinned id key st
    → Kept id key (on_agent faults now ann st a)
unfolding on_agent
agent_keeps faults now ann st Action.register id key p = entry_keeps faults now ann st id key p
agent_keeps faults now ann st Action.update id key p =
    guarded_keeps _ id key _ true (entry_keeps faults now ann st id key p)
agent_keeps faults now ann st Action.deregister id key p =
    guarded_keeps _ id key _ false (
      written_keeps faults.write _ st id key (tombstone_keeps now.text ann.entity_id id key st p) p)
agent_keeps faults now ann st Action.agent_status id key p =
    guarded_keeps _ id key _ false
      (written_keeps faults.write _ st id key (status_keeps ann.status ann.entity_id id key st p) p)
agent_keeps faults now ann st Action.claim id key p = p
agent_keeps faults now ann st Action.verify id key p = p
agent_keeps faults now ann st Action.release id key p = p
agent_keeps faults now ann st Action.version id key p = p
agent_keeps faults now ann st Action.publish id key p = p
agent_keeps faults now ann st Action.attest id key p = p
agent_keeps faults now ann st Action.unknown id key p = p

pub process_keeps :
    (faults : Faults) (now : Clock) (ann : Announcement) (st : GossipStore) (k : Kind) (a : Action)
    (id key : Bytes)
    → Pinned id key st
    → Kept id key (process faults now ann st k a)
unfolding process
process_keeps faults now ann st Kind.developer_announce a id key p =
    same_keeps id key st _ (developer_entities faults now ann st a) p
process_keeps faults now ann st Kind.dev_handle a id key p =
    same_keeps id key st _ (handle_entities faults now ann st a) p
process_keeps faults now ann st Kind.name_binding a id key p =
    same_keeps id key st _ (name_entities faults now ann st a) p
process_keeps faults now ann st Kind.registry_proof a id key p =
    same_keeps id key st _ (proof_entities faults now ann st a) p
process_keeps faults now ann st Kind.peer_attestation a id key p =
    same_keeps id key st _ (attestation_entities faults ann st a) p
process_keeps faults now ann st Kind.agent_announce a id key p =
    agent_keeps faults now ann st a id key p

pub finish_keeps :
    (gh : GossipHandler) (ann : Announcement) (o : Option (GossipStore × Bool)) (id key : Bytes)
    → Pinned id key gh.store
    → Kept id key o
    → Pinned id key (finish gh ann o).handler.store
finish_keeps gh ann none id key p q = p
finish_keeps gh ann (some (st, indexed)) id key p q = q

pub accept_keeps :
    (faults : Faults) (now : Clock) (ann : Announcement) (gh : GossipHandler) (id key : Bytes)
    → Pinned id key gh.store
    → Pinned id key (accept faults now ann gh).handler.store
unfolding accept
accept_keeps faults now ann gh id key p =
    let seen = insert Bytes-discrete (dedup_key ann) now.seconds gh.seen in
    let k = kind_of ann.type in
    let a = action_of ann.action in
    finish_keeps (record gh { seen = seen }) ann (process faults now ann gh.store k a) id key p
      (process_keeps faults now ann gh.store k a id key p)
