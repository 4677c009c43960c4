-- ===== src/Mesh/Gossip/Guards.antt =====
-- The guards of `HandleAnnouncement`: what an announcement must have to be forwarded, and that none
-- is forwarded twice.
use agent_dns.Mesh.Announcement.{Announcement}
use agent_dns.Mesh.Actions.{Faults, Clock}
use agent_dns.Mesh.Gossip.{
  GossipHandler, Handled, handle_announcement, dedup, accept, finish, rejected, dedup_key, signed,
}
use agent_dns.Mesh.Rows.{GossipStore}
use agent_dns.Prelude.Assoc.{lookup, insert}
use agent_dns.Prelude.{
  ℕ, ◌+◌, ◌<◌, ◌≡◌, refl, sym, ap, ◌∙◌, Bool, true, false, List, [], ◌∷◌, Option, none, some, Bytes,
  Bytes-discrete, leb, Bool-cases, Option-cases, ◌⊎◌, inl, inr, arith,
}

-- What forwarding an announcement takes and leaves.
pub record Forwarded (key : Bytes) (ann : Announcement) (gh : GossipHandler) (r : Handled) (at : ℕ)
    : Type 0 where
  pub hops : ann.hop_count < ann.max_hops
  pub unseen : lookup Bytes-discrete key gh.seen ≡ none
  pub marked : r.handler.seen ≡ insert Bytes-discrete key at gh.seen
  pub counted : r.announcement ≡ record ann { hop_count = ann.hop_count + 1 }

finish_seen :
    (gh : GossipHandler) (ann : Announcement) (o : Option (GossipStore × Bool))
    → (finish gh ann o).handler.seen ≡ gh.seen
finish_seen gh ann none = refl
finish_seen gh ann (some (st, indexed)) = refl

finish_forward :
    (gh : GossipHandler) (ann : Announcement) (o : Option (GossipStore × Bool))
    → (finish gh ann o).forward ≡ true
    → (finish gh ann o).announcement ≡ record ann { hop_count = ann.hop_count + 1 }
finish_forward gh ann none h = absurd (ground arith)
finish_forward gh ann (some (st, indexed)) h = refl

pub accept_seen :
    (faults : Faults) (now : Clock) (ann : Announcement) (gh : GossipHandler)
    → (accept faults now ann gh).handler.seen
      ≡ insert Bytes-discrete (dedup_key ann) now.seconds gh.seen
unfolding accept
accept_seen faults now ann gh = finish_seen _ ann _

accept_forward :
    (faults : Faults) (now : Clock) (ann : Announcement) (gh : GossipHandler)
    → (accept faults now ann gh).forward ≡ true
    → (accept faults now ann gh).announcement ≡ record ann { hop_count = ann.hop_count + 1 }
unfolding accept
accept_forward faults now ann gh h = finish_forward _ ann _ h

-- A key that is there turns the announcement away.
dedup_hit :
    (faults : Faults) (now : Clock) (ann : Announcement) (gh : GossipHandler) (at : ℕ)
    → lookup Bytes-discrete (dedup_key ann) gh.seen ≡ some at
    → dedup faults now ann gh ≡ rejected gh ann
unfolding dedup
dedup_hit faults now ann gh at h = rw (h, dedup) refl

dedup_miss :
    (faults : Faults) (now : Clock) (ann : Announcement) (gh : GossipHandler)
    → lookup Bytes-discrete (dedup_key ann) gh.seen ≡ none
    → dedup faults now ann gh ≡ accept faults now ann gh
unfolding dedup
dedup_miss faults now ann gh h = rw (h, dedup) refl

module _ (marshal : Announcement → Option Bytes) (verify : Bytes → Bytes → Bytes → Bool) where
  -- A call either leaves the handler as it was, with no effect and nothing to forward, or it is the
  -- call of `accept` on a signed announcement below its hop limit, whose key is new.
  pub handle_cases :
      (faults : Faults) (now : Clock) (ann : Announcement) (gh : GossipHandler)
      → (handle_announcement marshal verify faults now ann gh ≡ rejected gh ann)
        ⊎ ((ann.hop_count < ann.max_hops)
            × (signed marshal verify ann ≡ true)
            × (lookup Bytes-discrete (dedup_key ann) gh.seen ≡ none)
            × (handle_announcement marshal verify faults now ann gh ≡ accept faults now ann gh))
  unfolding handle_announcement
  handle_cases faults now ann gh = elim (Bool-cases (leb ann.max_hops ann.hop_count)) [
    | inl far ↦ inl (rw far refl)
    | inr near ↦ elim (Bool-cases (signed marshal verify ann)) [
      | inr bad ↦ inl (rw (near, bad) refl)
      | inl good ↦ elim (Option-cases (lookup Bytes-discrete (dedup_key ann) gh.seen)) [
        | inl new ↦
            inr (ground arith, good, new, rw (near, good) (dedup_miss faults now ann gh new))
        | inr (at, old) ↦ inl (rw (near, good) (dedup_hit faults now ann gh at old))
      ]
    ]
  ]

  -- A signed announcement below its hop limit, whose key is new, is accepted.
  pub handle_accepts :
      (faults : Faults) (now : Clock) (ann : Announcement) (gh : GossipHandler)
      → ann.hop_count < ann.max_hops
      → signed marshal verify ann ≡ true
      → lookup Bytes-discrete (dedup_key ann) gh.seen ≡ none
      → handle_announcement marshal verify faults now ann gh ≡ accept faults now ann gh
  unfolding handle_announcement
  handle_accepts faults now ann gh hops good new =
      let near : leb ann.max_hops ann.hop_count ≡ false = ground arith in
      rw (near, good) (dedup_miss faults now ann gh new)

  -- An announcement that is forwarded is signed, was below its hop limit and was not seen before;
  -- its key is marked with the time of the call and its hop count is one more.
  pub forwarded_lem :
      (faults : Faults) (now : Clock) (ann : Announcement) (gh : GossipHandler)
      → (handle_announcement marshal verify faults now ann gh).forward ≡ true
      → (signed marshal verify ann ≡ true)
        × Forwarded
            (dedup_key ann)
            ann
            gh
            (handle_announcement marshal verify faults now ann gh)
            now.seconds
  forwarded_lem faults now ann gh h = elim (handle_cases faults now ann gh) [
    | inl same ↦ absurd (let no = ap (λ r. r.forward) same in ground arith)
    | inr (hops, good, new, same) ↦ (
      good,
      record {
        hops = hops;
        unseen = new;
        marked = ap (λ r. r.handler.seen) same ∙ accept_seen faults now ann gh;
        counted =
            ap (λ r. r.announcement) same
            ∙ accept_forward faults now ann gh (sym (ap (λ r. r.forward) same) ∙ h);
      },
    )
  ]

  -- A sequence of calls, the first one first.
  unfoldable pub handle_all : List (Faults × Clock × Announcement) → GossipHandler → GossipHandler
  handle_all [] gh = gh
  handle_all ((faults, now, ann) ∷ calls) gh =
      handle_all calls (handle_announcement marshal verify faults now ann gh).handler
