-- ===== src/Mesh/Gossip.antt =====
-- internal/mesh/gossip.go: the gossip handler. `marshal` is `json.Marshal` on announcements, `none`
-- an error, and `verify key data signature` is `identity.Verify`, false on an error. A handler
-- call is given the times that `time.Now` returns in it, in seconds and as text, and which of its
-- database calls fail. What it calls back and publishes is listed as effects.
pub mod Guards
pub mod Pins
pub mod Origin
pub mod Attest
pub mod Relay
pub mod Create
pub mod Created
pub mod Stored
use agent_dns.Mesh.Announcement.{Announcement, Kind, Action, kind_of, action_of}
use agent_dns.Mesh.Actions.{Faults, Clock, process}
use agent_dns.Mesh.GossipStore.{
  get_gossip_entry, upsert_gossip_entry, tombstone_gossip_entry, update_gossip_entry_status,
  upsert_gossip_developer, tombstone_gossip_developer, upsert_gossip_zns_name,
  tombstone_gossip_zns_name, upsert_registry_proof, update_registry_verification_tier,
  create_peer_attestation, count_peer_attestations,
}
use agent_dns.Mesh.Rows.{GossipStore, GossipEntry, GossipDeveloperEntry, EntityRow}
use agent_dns.Prelude.Assoc.{lookup, insert}
use agent_dns.Prelude.{
  ℕ, ◌+◌, Bool, true, false, List, [], ◌∷◌, ◌++◌, Option, none, some, Bytes, Bytes-discrete, codes,
  ite, length, take, drop, leb, ltb, if◌then◌else◌, ◌≡◌, ◌-◌,
}

pub record GossipEventData : Type 0 where
  pub entity_id : Bytes
  pub name : Bytes
  pub action : Bytes
  pub home_registry : Bytes
  pub hop_count : ℕ
  pub direction : Bytes

pub data Effect : Type 0 where
  -- `onAnnounce(ann)`, `onBroadcast(ann)`
  index broadcast : Announcement → Effect
  -- `bus.Publish(…, data)`
  publish : GossipEventData → Effect

pub record GossipHandler : Type 0 where
  pub store : GossipStore
  pub max_hops : ℕ
  pub dedup_window : ℕ
  pub seen : List (Bytes × ℕ)
  -- Whether the callbacks and the bus are set.
  pub has_on_announce : Bool
  pub has_on_broadcast : Bool
  pub has_event_bus : Bool

-- What a call of `HandleAnnouncement` leaves: the handler, the effects, the announcement, which is
-- changed in place, and whether it is to be forwarded.
pub record Handled : Type 0 where
  pub handler : GossipHandler
  pub effects : List Effect
  pub announcement : Announcement
  pub forward : Bool

-- `pubKey[8:]` behind "ed25519:".
unfoldable pub bare_key : Bytes → Bytes
bare_key key = ite (Bytes-discrete (take 8 key) (codes "ed25519:")) (drop 8 key) key

abbrev pub dedup_id_of : Kind → Announcement → Bytes
dedup_id_of Kind.developer_announce ann = ann.developer_id
dedup_id_of Kind.dev_handle ann = ann.developer_id
dedup_id_of Kind.name_binding ann = ann.fqan
dedup_id_of Kind.registry_proof ann = ann.domain
dedup_id_of Kind.peer_attestation ann = ann.attester_id ++ (codes ":" ++ ann.subject_id)
dedup_id_of Kind.agent_announce ann = ann.entity_id

unfoldable pub dedup_key : Announcement → Bytes
unfolding kind_of
dedup_key ann = dedup_id_of (kind_of ann.type) ann ++ (codes ":" ++ ann.timestamp)

abbrev pub event : Announcement → Bytes → GossipEventData
event ann direction = record {
  entity_id = ann.entity_id;
  name = ann.name;
  action = ann.action;
  home_registry = ann.home_registry;
  hop_count = ann.hop_count;
  direction = direction;
}

abbrev pub when : Bool → Effect → List Effect
when true e = e ∷ []
when false e = []

-- `return false` before anything is changed.
abbrev pub rejected : GossipHandler → Announcement → Handled
rejected gh ann = record { handler = gh; effects = []; announcement = ann; forward = false }

-- From the mark in the dedup map on.
abbrev pub finish : GossipHandler → Announcement → Option (GossipStore × Bool) → Handled
finish gh ann none = rejected gh ann
finish gh ann (some (st, indexed)) = record {
  handler = record gh { store = st };
  effects =
      when (if indexed then gh.has_on_announce else false) (Effect.index ann)
      ++ when gh.has_event_bus (Effect.publish (event ann (codes "incoming")));
  announcement = record ann { hop_count = ann.hop_count + 1 };
  forward = true;
}

unfoldable pub accept : Faults → Clock → Announcement → GossipHandler → Handled
unfolding process action_of kind_of
accept faults now ann gh =
    finish (record gh { seen = insert Bytes-discrete (dedup_key ann) now.seconds gh.seen }) ann
      (process faults now ann gh.store (kind_of ann.type) (action_of ann.action))

unfoldable pub dedup : Faults → Clock → Announcement → GossipHandler → Handled
unfolding accept dedup_key
dedup faults now ann gh = elim (lookup Bytes-discrete (dedup_key ann) gh.seen) [
  | some _ ↦ rejected gh ann
  | none ↦ accept faults now ann gh
]

module _ (marshal : Announcement → Option Bytes) (verify : Bytes → Bytes → Bytes → Bool) where
  -- Whether the announcement is signed, and the signature is valid for it without the signature.
  unfoldable pub signed : Announcement → Bool
  unfolding bare_key
  signed ann = ite (Bytes-discrete ann.signature []) false (
      ite (Bytes-discrete ann.origin_public_key []) false
        (elim (marshal (record ann { signature = [] })) [
          | none ↦ false
          | some text ↦ verify (bare_key ann.origin_public_key) text ann.signature
        ]))

  unfoldable pub handle_announcement : Faults → Clock → Announcement → GossipHandler → Handled
  unfolding signed dedup
  handle_announcement faults now ann gh =
      if leb ann.max_hops ann.hop_count
      then rejected gh ann
      else if signed ann
      then dedup faults now ann gh
      else rejected gh ann

-- `BroadcastAnnouncement`, on an announcement that is not nil.
unfoldable pub broadcast_announcement :
    Clock → Announcement → GossipHandler → GossipHandler × List Effect
broadcast_announcement now ann gh = (
  record gh {
    seen =
        insert Bytes-discrete (ann.entity_id ++ (codes ":" ++ ann.timestamp)) now.seconds gh.seen;
  },
  when gh.has_on_broadcast (Effect.broadcast ann)
      ++ when gh.has_event_bus (Effect.publish (event ann (codes "outgoing"))),
)

-- One round of `cleanDedupWindow`.
unfoldable pub clean_seen : ℕ → List (Bytes × ℕ) → List (Bytes × ℕ)
clean_seen cutoff [] = []
clean_seen cutoff ((key, at) ∷ m) =
    if ltb at cutoff then clean_seen cutoff m else (key, at) ∷ clean_seen cutoff m

unfoldable pub clean_dedup_window : Clock → GossipHandler → GossipHandler
unfolding clean_seen
clean_dedup_window now gh = record gh { seen = clean_seen (now.seconds - gh.dedup_window) gh.seen }
