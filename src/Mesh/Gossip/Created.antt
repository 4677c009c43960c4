-- ===== src/Mesh/Gossip/Created.antt =====
-- The announcements that a registry creates, at a registry that receives them.
use agent_dns.Mesh.Actions.{Faults, Clock}
use agent_dns.Mesh.Announcement.{Announcement}
use agent_dns.Mesh.Gossip.Create.{
  RegistryRecord, DeveloperRecord, ZnsName, RegistryIdentityProof, PeerAttestation, with_developer,
  sealed, opened, create_announcement, create_developer_announcement, create_status_announcement,
  create_handle_announcement, create_name_binding_announcement, create_registry_proof_announcement,
  create_peer_attestation_announcement,
}
use agent_dns.Mesh.Gossip.Guards.{handle_accepts}
use agent_dns.Mesh.Gossip.{GossipHandler, handle_announcement, signed, bare_key, accept, dedup_key}
use agent_dns.Prelude.Assoc.{lookup}
use agent_dns.Prelude.{
  ◌<◌, ◌≡◌, ◌≢◌, refl, sym, ap, ◌∙◌, Bool, true, false, [], ◌∷◌, Option, none, some, Bytes,
  Bytes-discrete, ite, if_neg, arith,
}

module _ (marshal : Announcement → Option Bytes) (sign : Bytes → Bytes)
    (registry_id pub_key now : Bytes) where
  -- An announcement that one of the seven functions creates.
  pub data Created (gh : GossipHandler) : Announcement → Type 0 where
    by_agent :
        (agent : RegistryRecord) (action : Bytes)
        → Created gh (create_announcement marshal sign registry_id pub_key now gh agent action)
    by_developer :
        (dev : DeveloperRecord) (action : Bytes)
        → Created gh
            (create_developer_announcement marshal sign registry_id pub_key now gh dev action)
    by_status :
        (id status : Bytes)
        → Created gh (create_status_announcement marshal sign registry_id pub_key now gh id status)
    by_handle :
        (dev : DeveloperRecord) (handle : Bytes) (verified : Bool) (method action : Bytes)
        → Created gh (
            create_handle_announcement marshal sign registry_id pub_key now gh dev handle verified
              method action)
    by_name :
        (name : ZnsName) (action : Bytes)
        → Created gh
            (create_name_binding_announcement marshal sign registry_id pub_key now gh name action)
    by_proof :
        (proof : RegistryIdentityProof) (action : Bytes)
        → Created gh (
            create_registry_proof_announcement marshal sign registry_id pub_key now gh proof action)
    by_attestation :
        (att : PeerAttestation) (action : Bytes)
        → Created gh (
            create_peer_attestation_announcement marshal sign registry_id pub_key now gh att action)

  -- What the fields of an announcement are before it is signed.
  record Fresh (gh : GossipHandler) (ann : Announcement) : Type 0 where
    unsigned : ann.signature ≡ []
    origin : ann.origin_public_key ≡ pub_key
    hops : ann.hop_count ≡ 0
    limit : ann.max_hops ≡ gh.max_hops

  Fresh-developer :
      (gh : GossipHandler) (id : Bytes) (proof : Option (Bytes × Bytes)) (ann : Announcement)
      → Fresh gh ann
      → Fresh gh (with_developer id proof ann)
  Fresh-developer gh [] proof ann f = f
  Fresh-developer gh (c ∷ id) none ann f = record {
    unsigned = f.unsigned;
    origin = f.origin;
    hops = f.hops;
    limit = f.limit;
  }
  Fresh-developer gh (c ∷ id) (some (proof, key)) ann f = record {
    unsigned = f.unsigned;
    origin = f.origin;
    hops = f.hops;
    limit = f.limit;
  }

  Created-sealed :
      (gh : GossipHandler) (ann : Announcement)
      → Created gh ann
      → (raw : Announcement) × (ann ≡ sealed marshal sign registry_id pub_key now raw)
        × Fresh gh raw
  unfolding create_announcement create_developer_announcement create_status_announcement
      create_handle_announcement create_name_binding_announcement create_registry_proof_announcement
      create_peer_attestation_announcement opened
  Created-sealed gh ann (Created.by_agent a action) = (
    _,
    refl,
    Fresh-developer gh a.developer_id a.developer_proof _
        (record { unsigned = refl; origin = refl; hops = refl; limit = refl }),
  )
  Created-sealed gh ann (Created.by_developer a action) =
      (_, refl, record { unsigned = refl; origin = refl; hops = refl; limit = refl })
  Created-sealed gh ann (Created.by_status a action) =
      (_, refl, record { unsigned = refl; origin = refl; hops = refl; limit = refl })
  Created-sealed gh ann (Created.by_handle a h v m action) =
      (_, refl, record { unsigned = refl; origin = refl; hops = refl; limit = refl })
  Created-sealed gh ann (Created.by_name a action) =
      (_, refl, record { unsigned = refl; origin = refl; hops = refl; limit = refl })
  Created-sealed gh ann (Created.by_proof a action) =
      (_, refl, record { unsigned = refl; origin = refl; hops = refl; limit = refl })
  Created-sealed gh ann (Created.by_attestation a action) =
      (_, refl, record { unsigned = refl; origin = refl; hops = refl; limit = refl })

  module _ (verify : Bytes → Bytes → Bytes → Bool) where
    sealed-signed :
        (gh : GossipHandler) (raw : Announcement)
        → pub_key ≢ []
        → ((text : Bytes) → sign text ≢ [])
        → (text : Bytes) → marshal raw ≡ some text
        → ((text : Bytes) → verify (bare_key pub_key) text (sign text) ≡ true)
        → Fresh gh raw
        → signed marshal verify (sealed marshal sign registry_id pub_key now raw) ≡ true
    unfolding signed sealed
    sealed-signed gh raw key nonempty text e correct f =
        let same : record raw { signature = [] } ≡ raw =
          ap (λ s. record raw { signature = s }) (sym f.unsigned) in
        rw
          (
            ap marshal same ∙ e,
            e,
            f.origin,
            if_neg (Bytes-discrete (sign text) []) (nonempty text) false (
                ite (Bytes-discrete pub_key []) false (verify (bare_key pub_key) text (sign text))),
            if_neg (Bytes-discrete pub_key []) key false
                (verify (bare_key pub_key) text (sign text)),
          )
          (correct text)

    -- Where JSON encoding succeeds and a signature that `sign` gives is never empty and valid for the
    -- registry's public key, every announcement that the registry creates is accepted by each
    -- registry that has not seen its key, provided the hop limit is not 0.
    pub Created-accepted :
        (faults : Faults) (at : Clock) (gh next : GossipHandler) (ann : Announcement)
        → pub_key ≢ []
        → ((text : Bytes) → sign text ≢ [])
        → ((a : Announcement) → (text : Bytes) × (marshal a ≡ some text))
        → ((text : Bytes) → verify (bare_key pub_key) text (sign text) ≡ true)
        → 0 < gh.max_hops
        → Created gh ann
        → lookup Bytes-discrete (dedup_key ann) next.seen ≡ none
        → handle_announcement marshal verify faults at ann next ≡ accept faults at ann next
    unfolding sealed
    Created-accepted faults at gh next ann key nonempty total correct limit c new =
        let (raw, e, f) = Created-sealed gh ann c in
        let (text, t) = total raw in
        handle_accepts marshal verify faults at ann next
          (omega (arith, ap (λ a. a.hop_count) e, ap (λ a. a.max_hops) e, f.hops, f.limit, limit))
          (ap (signed marshal verify) e ∙ sealed-signed gh raw key nonempty text t correct f) new
