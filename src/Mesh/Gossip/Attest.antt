-- ===== src/Mesh/Gossip/Attest.antt =====
-- Peer attestations and the verification tier that they give.
use agent_dns.Mesh.Announcement.{Announcement}
use agent_dns.Mesh.Rows.{GossipStore, ProofRow, AttestationRow}
use agent_dns.Prelude.{ℕ, suc, Option, none, some, codes}

-- One more, unless the row was there.
abbrev pub more {ℓ} : {V : Type ℓ} → Option V → ℕ → ℕ
more none n = suc n
more (some v) n = n

abbrev pub promoted : ProofRow → ProofRow
promoted row = record row { verification_tier = codes "mesh-verified" }

abbrev pub mapped {ℓ} : {V : Type ℓ} → (V → V) → Option V → Option V
mapped f none = none
mapped f (some v) = some (f v)

abbrev attestation_of : Announcement → AttestationRow
attestation_of ann = record {
  verified_layers = ann.verified_layers;
  attested_at = ann.timestamp;
  signature = ann.signature;
}
