-- ===== src/Mesh/Gossip/Origin.antt =====
-- Origin pinning: the key under which an entry was first announced, and what an announcement with
-- another key can do.
use agent_dns.Mesh.Gossip.Pins.{Pinned, accept_keeps}
use agent_dns.Mesh.Announcement.{Announcement, Kind, Action, kind_of, action_of}
use agent_dns.Mesh.Gossip.Guards.{handle_cases, handle_all}
use agent_dns.Mesh.Actions.{Faults, Clock, process, on_agent, verify_origin_authorization}
use agent_dns.Mesh.Gossip.{GossipHandler, handle_announcement, accept, rejected, dedup_key}
use agent_dns.Mesh.Rows.{GossipStore}
use agent_dns.Prelude.Assoc.{insert}
use agent_dns.Prelude.{
  ℕ, ◌≡◌, ◌≢◌, refl, sym, subst, Bool, true, false, List, [], ◌∷◌, Option, none, Bytes,
  Bytes-discrete, if_neg, inl, inr, arith,
}

-- The pinned key, not empty, of an entry is not the key of the announcement, and there is an entry.
refused :
    (faults : Faults) (st : GossipStore) (id origin : Bytes) (c : ℕ) (key : Bytes) (b : Bool)
    → Pinned id (c ∷ key) st
    → (c ∷ key) ≢ origin
    → verify_origin_authorization faults st id origin b ≡ false
unfolding verify_origin_authorization
refused faults st id origin c key b p n =
    rw (p.there, p.pin, if_neg (Bytes-discrete (c ∷ key) origin) n true false) (ground arith)

-- The actions on an entry that is there.
pub data Guarded : Action → Type 0 where
  update : Guarded Action.update
  deregister : Guarded Action.deregister
  agent_status : Guarded Action.agent_status

agent_refused :
    (faults : Faults) (now : Clock) (ann : Announcement) (st : GossipStore) (a : Action) (c : ℕ)
    (key : Bytes)
    → Guarded a
    → Pinned ann.entity_id (c ∷ key) st
    → (c ∷ key) ≢ ann.origin_public_key
    → on_agent faults now ann st a ≡ none
unfolding on_agent
agent_refused faults now ann st a c key Guarded.update p n =
    rw (refused faults st ann.entity_id ann.origin_public_key c key false p n) refl
agent_refused faults now ann st a c key Guarded.deregister p n =
    rw (refused faults st ann.entity_id ann.origin_public_key c key true p n) refl
agent_refused faults now ann st a c key Guarded.agent_status p n =
    rw (refused faults st ann.entity_id ann.origin_public_key c key true p n) refl

accept_refused :
    (faults : Faults) (now : Clock) (ann : Announcement) (gh : GossipHandler) (c : ℕ) (key : Bytes)
    → kind_of ann.type ≡ Kind.agent_announce
    → Guarded (action_of ann.action)
    → Pinned ann.entity_id (c ∷ key) gh.store
    → (c ∷ key) ≢ ann.origin_public_key
    → accept faults now ann gh
      ≡ rejected
          (record gh { seen = insert Bytes-discrete (dedup_key ann) now.seconds gh.seen })
          ann
unfolding accept process
accept_refused faults now ann gh c key k a p n =
    rw (k, agent_refused faults now ann gh.store (action_of ann.action) c key a p n) refl

module _ (marshal : Announcement → Option Bytes) (verify : Bytes → Bytes → Bytes → Bool) where
  handle_keeps_pin :
      (faults : Faults) (now : Clock) (ann : Announcement) (gh : GossipHandler) (id key : Bytes)
      → Pinned id key gh.store
      → Pinned id key (handle_announcement marshal verify faults now ann gh).handler.store
  handle_keeps_pin faults now ann gh id key p =
      elim (handle_cases marshal verify faults now ann gh) [
        | inl same ↦ subst (λ r. Pinned id key r.handler.store) (sym same) p
        | inr (hops, good, new, same) ↦
            subst (λ r. Pinned id key r.handler.store) (sym same)
              (accept_keeps faults now ann gh id key p)
      ]

  -- An entry whose origin key is pinned is still there, with the same origin key, after every
  -- sequence of announcements, whoever signed them.
  pub pin_stays :
      (calls : List (Faults × Clock × Announcement)) (gh : GossipHandler) (id key : Bytes)
      → Pinned id key gh.store
      → Pinned id key (handle_all marshal verify calls gh).store
  unfolding handle_all
  pin_stays [] gh id key p = p
  pin_stays ((faults, now, ann) ∷ calls) gh id key p =
      pin_stays calls _ id key (handle_keeps_pin faults now ann gh id key p)

  -- An update, a deregistration or a status of an entry whose pinned key, not empty, is another than
  -- the announcement's leaves the whole database as it is, has no effect and is not forwarded.
  pub stranger_refused :
      (faults : Faults) (now : Clock) (ann : Announcement) (gh : GossipHandler) (c : ℕ)
      (key : Bytes)
      → kind_of ann.type ≡ Kind.agent_announce
      → Guarded (action_of ann.action)
      → Pinned ann.entity_id (c ∷ key) gh.store
      → (c ∷ key) ≢ ann.origin_public_key
      → ((handle_announcement marshal verify faults now ann gh).handler.store ≡ gh.store)
        × ((handle_announcement marshal verify faults now ann gh).effects ≡ [])
        × ((handle_announcement marshal verify faults now ann gh).forward ≡ false)
  stranger_refused faults now ann gh c key k a p n =
      elim (handle_cases marshal verify faults now ann gh) [
        | inl same ↦ rw same (refl, refl, refl)
        | inr (hops, good, new, same) ↦
            rw (same, accept_refused faults now ann gh c key k a p n) (refl, refl, refl)
      ]
