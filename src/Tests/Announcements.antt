-- ===== src/Tests/Announcements.antt =====
-- Runs on announcements: an announcement is encoded as its hop count and entity, and signed with a
-- mark before that text.
use agent_dns.Mesh.Actions.{Faults, Clock, entry_of}
use agent_dns.Mesh.Announcement.{Announcement, blank, Kind, Action, kind_of, action_of}
use agent_dns.Mesh.Gossip.Create.{RegistryRecord, create_announcement}
use agent_dns.Mesh.Gossip.Guards.{Forwarded, forwarded_lem, handle_all}
use agent_dns.Mesh.Gossip.Pins.{Pinned}
use agent_dns.Mesh.Gossip.Origin.{Guarded, pin_stays, stranger_refused}
use agent_dns.Mesh.Gossip.Relay.{Overwrites, relayed_rejected, register_replaces}
use agent_dns.Mesh.Gossip.{
  GossipHandler, handle_announcement, signed, rejected, dedup_key, bare_key,
}
use agent_dns.Mesh.GossipStore.{get_gossip_entry, fresh_row}
use agent_dns.Mesh.Rows.{GossipStore, EntityRow, AttestationRow}
use agent_dns.Prelude.Assoc.{lookup}
use agent_dns.Prelude.{
  ℕ, ◌≡◌, refl, sym, ap, ◌∙◌, Bool, true, false, [], ◌∷◌, Option, none, some, Bytes, Bytes-discrete,
  codes, ite, if_neg, drop, arith,
}

unfoldable marshal : Announcement → Option Bytes
marshal ann = some (ann.hop_count ∷ ann.entity_id)

unfoldable sign : Bytes → Bytes
sign text = 1 ∷ text

unfoldable verify : Bytes → Bytes → Bytes → Bool
verify key text signature = ite (Bytes-discrete (1 ∷ text) signature) true false

abbrev sound : Faults
sound = record { read = false; write = false; count = false; tier = false }

abbrev at : ℕ → Clock
at n = record { seconds = n; text = codes "2026-01-01T00:00:00Z" }

abbrev ann : Announcement
ann = record blank {
  type = codes "agent_announce";
  entity_id = codes "zns:ab";
  action = codes "register";
  timestamp = codes "t1";
  origin_public_key = codes "k1";
  signature = 1 ∷ 0 ∷ codes "zns:ab";
  max_hops = 10;
}

-- The same entity, by another registry.
abbrev stranger : Announcement
stranger = record ann {
  action = codes "update";
  timestamp = codes "t2";
  origin_public_key = codes "k2";
}

abbrev row : EntityRow
row = fresh_row (entry_of (at 1) ann)

abbrev gh : GossipHandler
gh = record {
  store = record { entities = []; developers = []; zns_names = []; proofs = []; attestations = [] };
  max_hops = 10;
  dedup_window = 300;
  seen = [];
  has_on_announce = true;
  has_on_broadcast = true;
  has_event_bus = true;
}

abbrev holding : GossipHandler
holding = record gh { store = record gh.store { entities = (codes "zns:ab", row) ∷ [] } }

ann_forwarded : (handle_announcement marshal verify sound (at 1) ann gh).forward ≡ true
unfolding handle_announcement marshal verify Bytes-discrete lookup
ann_forwarded = refl

ann-signed : signed marshal verify ann ≡ true
unfolding signed marshal verify Bytes-discrete
ann-signed = refl

row-Pinned : Pinned (codes "zns:ab") (codes "k1") holding.store
unfolding get_gossip_entry Bytes-discrete entry_of lookup
row-Pinned = record { row = row; there = refl; pin = refl }

forwarded_lem_example :
    (signed marshal verify ann ≡ true)
    × Forwarded (dedup_key ann) ann gh (handle_announcement marshal verify sound (at 1) ann gh) 1
forwarded_lem_example = forwarded_lem marshal verify sound (at 1) ann gh ann_forwarded

abbrev after : GossipHandler
after =
    handle_all marshal verify ((sound, at 2, stranger) ∷ [])
      (handle_announcement marshal verify sound (at 1) ann gh).handler

pin_stays_example :
    Pinned
      (codes "zns:ab")
      (codes "k1")
      (handle_all marshal verify ((sound, at 2, stranger) ∷ []) holding).store
pin_stays_example =
    pin_stays marshal verify ((sound, at 2, stranger) ∷ []) holding (codes "zns:ab") (codes "k1")
      row-Pinned

kind_agent : kind_of (codes "agent_announce") ≡ Kind.agent_announce
unfolding kind_of Bytes-discrete
kind_agent = refl

action_register : action_of (codes "register") ≡ Action.register
unfolding action_of Bytes-discrete
action_register = refl

stranger-Guarded : Guarded (action_of stranger.action)
unfolding action_of Bytes-discrete
stranger-Guarded = Guarded.update

abbrev last : Bytes → ℕ
last [] = 0
last (c ∷ []) = c
last (c ∷ d ∷ s) = last (d ∷ s)

stranger_refused_example :
    ((handle_announcement marshal verify sound (at 2) stranger holding).handler.store
      ≡ holding.store)
    × ((handle_announcement marshal verify sound (at 2) stranger holding).effects ≡ [])
    × ((handle_announcement marshal verify sound (at 2) stranger holding).forward ≡ false)
stranger_refused_example =
    stranger_refused marshal verify sound (at 2) stranger holding b'k' (codes "1") kind_agent
      stranger-Guarded row-Pinned (λ e. absurd (omega (arith, ap last e)))

verify_text :
    (key text signature : Bytes) → verify key text signature ≡ true → (1 ∷ text) ≡ signature
unfolding verify
verify_text key text signature h = elim (Bytes-discrete (1 ∷ text) signature) [
  | yes p ↦ p
  | no n ↦ absurd (
      let no_ = sym (if_neg (Bytes-discrete (1 ∷ text) signature) n true false) ∙ h in ground arith)
]

verify_unique :
    (key text other signature : Bytes)
    → verify key text signature ≡ true
    → verify key other signature ≡ true
    → text ≡ other
verify_unique key text other signature h k =
    ap (drop 1) (verify_text key text signature h ∙ sym (verify_text key other signature k))

marshal_hops :
    (a b : Announcement) (text : Bytes)
    → marshal a ≡ some text
    → marshal b ≡ some text
    → a.hop_count ≡ b.hop_count
unfolding marshal
marshal_hops a b text h k = cc

relayed_rejected_example :
    handle_announcement marshal verify sound
      (at 2)
      (handle_announcement marshal verify sound (at 1) ann gh).announcement
      gh
    ≡ rejected gh (handle_announcement marshal verify sound (at 1) ann gh).announcement
relayed_rejected_example =
    relayed_rejected marshal verify sound sound (at 1) (at 2) ann gh gh
      (λ text other h k.
        verify_unique (bare_key ann.origin_public_key) text other ann.signature h k)
      marshal_hops ann_forwarded

none_seen : (key : Bytes) → lookup {V = ℕ} Bytes-discrete key [] ≡ none
unfolding lookup
none_seen key = refl

nothing_seen : lookup Bytes-discrete (dedup_key ann) holding.seen ≡ none
nothing_seen = none_seen (dedup_key ann)

holding_row : get_gossip_entry (codes "zns:ab") holding.store ≡ some row
unfolding get_gossip_entry Bytes-discrete lookup
holding_row = refl

register_replaces_example :
    ((handle_announcement marshal verify sound (at 2) ann holding).forward ≡ true)
    × (row' : EntityRow) × (get_gossip_entry
          (codes "zns:ab")
          (handle_announcement marshal verify sound (at 2) ann holding).handler.store
        ≡ some row')
    × Overwrites ann row row'
register_replaces_example =
    register_replaces marshal verify sound (at 2) ann holding row kind_agent action_register refl
      (omega arith) ann-signed nothing_seen holding_row

abbrev agent : RegistryRecord
agent = record {
  entity_id = codes "zns:cd";
  name = codes "translator";
  category = codes "nlp";
  tags = [];
  summary = codes "translates";
  entity_url = [];
  entity_type = codes "agent";
  service_endpoint = [];
  openapi_url = [];
  entity_pricing = none;
  developer_id = [];
  developer_proof = none;
}

abbrev created : Announcement
created =
    create_announcement marshal sign (codes "home") (codes "k1") (codes "t1") gh agent
      (codes "register")

-- Two registries have attested the third one, which has a proof.
abbrev attested : AttestationRow
attested = record { verified_layers = []; attested_at = []; signature = [] }

abbrev watched : GossipStore
watched = record gh.store {
  proofs =
      (
        codes "s",
        record {
          domain = codes "s.example";
          ed25519_public_key = [];
          tls_spki_fingerprint = [];
          signature = [];
          verification_tier = codes "self-announced";
          issued_at = [];
          expires_at = [];
          received_at = [];
        },
      )
      ∷ [];
  attestations = ((codes "a", codes "s"), attested) ∷ ((codes "b", codes "s"), attested) ∷ [];
}

abbrev third : Announcement
third = record blank {
  type = codes "peer_attestation";
  attester_id = codes "c";
  subject_id = codes "s";
}
