-- ===== src/Mesh/Gossip/Relay.antt =====
-- What becomes of an announcement at the next registry, and of an entry that another registry
-- registers again.
use agent_dns.Mesh.Actions.{Faults, Clock, on_agent, process, entry_of}
use agent_dns.Mesh.Announcement.{Announcement, Kind, Action, kind_of, action_of}
use agent_dns.Mesh.Gossip.Guards.{forwarded_lem, handle_accepts}
use agent_dns.Mesh.Gossip.{
  GossipHandler, handle_announcement, signed, rejected, bare_key, accept, finish, dedup_key,
}
use agent_dns.Mesh.GossipStore.{
  upsert_gossip_entry, get_gossip_entry, merged_row, fresh_row, coalesce, nil_if_empty,
}
use agent_dns.Mesh.Rows.{EntityRow, GossipEntry, GossipStore}
use agent_dns.Prelude.Assoc.{lookup, insert, lookup-insert}
use agent_dns.Prelude.{
  ◌+◌, ◌<◌, ◌≡◌, refl, sym, ap, ◌∙◌, Bool, true, false, [], Option, none, some, Bytes, codes,
  Bytes-discrete, Bool-cases, Option-cases, inl, inr, leb, if_pos, arith,
}

registered :
    (e : GossipEntry) (st : GossipStore) (row : EntityRow)
    → get_gossip_entry e.entity_id st ≡ some row
    → get_gossip_entry e.entity_id (upsert_gossip_entry e st)
      ≡ some (merged_row (fresh_row e) (some row))
unfolding get_gossip_entry upsert_gossip_entry
registered e st row h =
    lookup-insert Bytes-discrete e.entity_id e.entity_id _ st.entities
    ∙ if_pos (Bytes-discrete e.entity_id e.entity_id) refl _ _
    ∙ ap (λ o. some (merged_row (fresh_row e) o)) h

pub accept_register :
    (faults : Faults) (now : Clock) (ann : Announcement) (gh : GossipHandler)
    → kind_of ann.type ≡ Kind.agent_announce
    → action_of ann.action ≡ Action.register
    → faults.write ≡ false
    → accept faults now ann gh
      ≡ finish
          (record gh { seen = insert Bytes-discrete (dedup_key ann) now.seconds gh.seen })
          ann
          (some (upsert_gossip_entry (entry_of now ann) gh.store, true))
unfolding accept process on_agent
accept_register faults now ann gh k a w = rw (k, a, w) refl

-- What an announcement makes of a row: the entry's own fields are the announcement's, the home registry
-- and the tombstone are those of the old row, and so is its key where it has one.
pub record Overwrites (ann : Announcement) (old new : EntityRow) : Type 0 where
  pub name : new.name ≡ ann.name
  pub summary : new.summary ≡ ann.summary
  pub entity_url : new.entity_url ≡ ann.entity_url
  pub service_endpoint : new.service_endpoint ≡ ann.service_endpoint
  pub developer_id : new.developer_id ≡ nil_if_empty ann.developer_id
  pub status : new.status ≡ codes "active"
  pub home_registry : new.home_registry ≡ old.home_registry
  pub tombstoned : new.tombstoned ≡ old.tombstoned
  pub tombstone_at : new.tombstone_at ≡ old.tombstone_at
  pub pin : (key : Bytes) → old.origin_public_key ≡ some key → new.origin_public_key ≡ some key

module _ (marshal : Announcement → Option Bytes) (verify : Bytes → Bytes → Bytes → Bool) where
  -- The announcement as it is signed and verified.
  abbrev signed_text : Announcement → Option Bytes
  signed_text ann = marshal (record ann { signature = [] })

  signed-marshal :
      (ann : Announcement)
      → signed marshal verify ann ≡ true
      → (text : Bytes) × (signed_text ann ≡ some text)
        × (verify (bare_key ann.origin_public_key) text ann.signature ≡ true)
  unfolding signed
  signed-marshal ann h = elim (Option-cases (signed_text ann)) [
    | inl miss ↦ absurd (ground arith)
    | inr (text, e) ↦ (text, e, ground arith)
  ]

  unsigned_rejected :
      (faults : Faults) (now : Clock) (ann : Announcement) (gh : GossipHandler)
      → signed marshal verify ann ≡ false
      → handle_announcement marshal verify faults now ann gh ≡ rejected gh ann
  unfolding handle_announcement
  unsigned_rejected faults now ann gh h = elim (Bool-cases (leb ann.max_hops ann.hop_count)) [
    | inl far ↦ rw far refl
    | inr near ↦ rw (near, h) refl
  ]

  -- One signature does not serve two hop counts.
  next_unsigned :
      (ann : Announcement)
      → ((text other : Bytes)
          → verify (bare_key ann.origin_public_key) text ann.signature ≡ true
          → verify (bare_key ann.origin_public_key) other ann.signature ≡ true
          → text ≡ other)
      → ((a b : Announcement) (text : Bytes)
          → marshal a ≡ some text
          → marshal b ≡ some text
          → a.hop_count ≡ b.hop_count)
      → signed marshal verify ann ≡ true
      → signed marshal verify (record ann { hop_count = ann.hop_count + 1 }) ≡ false
  next_unsigned ann unique injective h =
      let next = record ann { hop_count = ann.hop_count + 1 } in
      elim (Bool-cases (signed marshal verify next)) [
        | inr bad ↦ bad
        | inl valid ↦
            let (text, e, v) = signed-marshal ann h in
            let (other, e', v') = signed-marshal next valid in
            let hops =
              injective (record ann { signature = [] }) (record next { signature = [] }) text e
                (e' ∙ ap some (sym (unique text other v v'))) in
            absurd (omega (arith, hops))
      ]

  -- Where the announcement's signature verifies one text only, and announcements with different hop
  -- counts are different as JSON, an announcement that was forwarded is turned away by every other
  -- registry that it reaches, which is left as it is.
  pub relayed_rejected :
      (faults faults' : Faults) (now later : Clock) (ann : Announcement) (gh next : GossipHandler)
      → ((text other : Bytes)
          → verify (bare_key ann.origin_public_key) text ann.signature ≡ true
          → verify (bare_key ann.origin_public_key) other ann.signature ≡ true
          → text ≡ other)
      → ((a b : Announcement) (text : Bytes)
          → marshal a ≡ some text
          → marshal b ≡ some text
          → a.hop_count ≡ b.hop_count)
      → (handle_announcement marshal verify faults now ann gh).forward ≡ true
      → handle_announcement marshal verify faults' later
          (handle_announcement marshal verify faults now ann gh).announcement
          next
        ≡ rejected next (handle_announcement marshal verify faults now ann gh).announcement
  relayed_rejected faults faults' now later ann gh next unique injective h =
      let (good, r) = forwarded_lem marshal verify faults now ann gh h in
      unsigned_rejected faults' later
        (handle_announcement marshal verify faults now ann gh).announcement next
        (ap (signed marshal verify) r.counted ∙ next_unsigned ann unique injective good)

  -- A `register` of an entry that is there, signed with any key, below its hop limit and not seen
  -- before, is accepted where the database writes: name, summary, URL, endpoint and developer are the
  -- announcement's from then on, and the entry is active; a pinned key, the home registry and the
  -- tombstone of the row that was there stay.
  pub register_replaces :
      (faults : Faults) (now : Clock) (ann : Announcement) (gh : GossipHandler) (row : EntityRow)
      → kind_of ann.type ≡ Kind.agent_announce
      → action_of ann.action ≡ Action.register
      → faults.write ≡ false
      → ann.hop_count < ann.max_hops
      → signed marshal verify ann ≡ true
      → lookup Bytes-discrete (dedup_key ann) gh.seen ≡ none
      → get_gossip_entry ann.entity_id gh.store ≡ some row
      → ((handle_announcement marshal verify faults now ann gh).forward ≡ true)
        × (row' : EntityRow) × (get_gossip_entry ann.entity_id
              (handle_announcement marshal verify faults now ann gh).handler.store
            ≡ some row')
        × Overwrites ann row row'
  unfolding entry_of
  register_replaces faults now ann gh row k a w hops good new old =
      rw
        (
          handle_accepts marshal verify faults now ann gh hops good new,
          accept_register faults now ann gh k a w,
        )
        (
          refl,
          merged_row (fresh_row (entry_of now ann)) (some row),
          registered (entry_of now ann) gh.store row old,
          record {
            name = refl;
            summary = refl;
            entity_url = refl;
            service_endpoint = refl;
            developer_id = refl;
            status = refl;
            home_registry = refl;
            tombstoned = refl;
            tombstone_at = refl;
            pin = λ key pinned. ap (λ o. coalesce o (nil_if_empty ann.origin_public_key)) pinned;
          },
        )
