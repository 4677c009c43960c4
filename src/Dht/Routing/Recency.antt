-- ===== src/Dht/Routing/Recency.antt =====
-- The contact that a full bucket gives up is the one that was seen the longest time ago.
use agent_dns.Dht.Bucket
use agent_dns.Dht.Bucket.Contents.{add_or_update_lem, Added}
use agent_dns.Dht.Bucket.Recency.{
  Ordered, Ordered-later, Ordered-head, add_or_update-Ordered, evict-Ordered,
}
use agent_dns.Dht.Bucket.{NodeContact, KBucket, add_or_update, new_bucket}
use agent_dns.Dht.NodeId.{NodeId}
use agent_dns.Dht.Routing.Contents.{Outcome, add_node_lem}
use agent_dns.Dht.Routing.Invariant.{IsValid, Slot-of}
use agent_dns.Dht.Routing.{RoutingTable, new_routing_table, num_buckets, bucket_index, add_node}
use agent_dns.Prelude.{
  ℕ, zero, suc, ◌≤◌, ◌≡◌, sym, ap, ◌∙◌, subst, List, [], ◌∷◌, Option, none, some, Bytes-discrete,
  if_pos, if_neg, get_elem?, set, replicate, All, All-imp,
}
use mathlib.Core.Option.{some-injective, none-ne-some}

-- Each bucket of a table is in the order in which its contacts were last seen, none after `now`.
abbrev pub IsRecent : ℕ → RoutingTable → Type 0
IsRecent now rt = All (λ b. Ordered now b.entries) rt.buckets

All-get {ℓ} :
    {A : Type ℓ} (P : A → Type 0) (xs : List A) (i : ℕ) (x : A)
    → All P xs
    → get_elem? xs i ≡ some x
    → P x
All-get P [] i x h e = absurd (none-ne-some x e)
All-get P (y ∷ xs) zero x (p, h) e = subst P (some-injective y x e) p
All-get P (y ∷ xs) (suc i) x (p, h) e = All-get P xs i x h e

All-set {ℓ} :
    {A : Type ℓ} (P : A → Type 0) (xs : List A) (i : ℕ) (x : A)
    → All P xs
    → P x
    → All P (set xs i x)
All-set P [] i x h q = tt
All-set P (y ∷ xs) zero x (p, h) q = (q, h)
All-set P (y ∷ xs) (suc i) x (p, h) q = (p, All-set P xs i x h q)

All-replicate {ℓ} : {A : Type ℓ} (P : A → Type 0) (n : ℕ) (x : A) → P x → All P (replicate n x)
All-replicate P zero x p = tt
All-replicate P (suc n) x p = (p, All-replicate P n x p)

pub new_routing_table-IsRecent :
    (now : ℕ) (self_id : NodeId) (k : ℕ) → IsRecent now (new_routing_table self_id k)
unfolding new_routing_table
new_routing_table-IsRecent now self_id k =
    All-replicate (λ (b : KBucket). Ordered now b.entries) num_buckets (new_bucket k) tt

pub IsRecent-later :
    (now later : ℕ) (rt : RoutingTable) → now ≤ later → IsRecent now rt → IsRecent later rt
IsRecent-later now later rt h = All-imp (λ b o. Ordered-later now later b.entries h o) rt.buckets

-- What `AddNode` leaves: a table in the order of recency, and a candidate that was seen no later than
-- any contact of its bucket.
pub record Aged (now : ℕ) (c : NodeContact) (rt : RoutingTable) : Type 0 where
  pub recent :
      (rt' : RoutingTable) (candidate : Option NodeContact)
      → add_node now c rt ≡ some (rt', candidate)
      → IsRecent now rt'
  pub least :
      (rt' : RoutingTable) (e : NodeContact)
      → add_node now c rt ≡ some (rt', some e)
      → (b : KBucket) × (get_elem? rt.buckets (bucket_index rt.self_id c.id) ≡ some b)
        × All (λ x. e.last_seen ≤ x.last_seen) b.entries

pub head_least :
    (now i : ℕ) (rt : RoutingTable) (b : KBucket) (e : NodeContact) (es : List NodeContact)
    → IsRecent now rt
    → get_elem? rt.buckets i ≡ some b
    → b.entries ≡ e ∷ es
    → All (λ x. e.last_seen ≤ x.last_seen) b.entries
head_least now i rt b e es r found eq =
    let o = All-get (λ (x : KBucket). Ordered now x.entries) rt.buckets i b r found in
    subst (All (λ x. e.last_seen ≤ x.last_seen)) (sym eq)
      (Ordered-head now e es (subst (Ordered now) eq o))

aged :
    (now : ℕ) (c : NodeContact) (rt rt'' : RoutingTable) (o : Option NodeContact)
    → add_node now c rt ≡ some (rt'', o)
    → IsRecent now rt''
    → ((e : NodeContact)
        → o ≡ some e
        → (b : KBucket) × (get_elem? rt.buckets (bucket_index rt.self_id c.id) ≡ some b)
          × All (λ x. e.last_seen ≤ x.last_seen) b.entries)
    → Aged now c rt
aged now c rt rt'' o done r least = record {
  recent = λ rt' candidate h.
      subst (IsRecent now)
        (ap (λ p. p.0) (some-injective (rt'', o) (rt', candidate) (sym done ∙ h))) r;
  least =
      λ rt' e h. least e (ap (λ p. p.1) (some-injective (rt'', o) (rt', some e) (sym done ∙ h)));
}

-- `AddNode` on a valid table whose buckets are in the order in which their contacts were last seen, none of
-- them after the time of the call: it never panics; it ignores the local identifier, takes the contact in
-- and leaves all others readable as before, or returns a contact of a full bucket that was seen no
-- later than any other of the bucket, and changes nothing. The buckets are in that order again.
pub add_node-Aged :
    (now : ℕ) (c : NodeContact) (rt : RoutingTable)
    → IsValid rt
    → IsRecent now rt
    → Outcome now c rt × Aged now c rt
unfolding add_node
add_node-Aged now c rt v r = (
  add_node_lem now c rt v,
  elim (Bytes-discrete c.id rt.self_id) [
    | yes same ↦
        aged now c rt rt none (rw (if_pos (Bytes-discrete c.id rt.self_id) same)) r
          (λ e q. absurd (none-ne-some e q))
    | no other ↦
        let i = bucket_index rt.self_id c.id in
        let (b, found, s) = Slot-of v c.id in
        let o = All-get (λ (x : KBucket). Ordered now x.entries) rt.buckets i b r found in
        elim (add_or_update_lem s.valid now c (rw s.capacity v.positive)) [
          | Added.taken b' done holds ↦
              aged now c rt (record rt { buckets = set rt.buckets i b' }) none
                (rw (if_neg _ other, found, done))
                (All-set (λ (x : KBucket). Ordered now x.entries) rt.buckets i b' r
                  (add_or_update-Ordered b now o c done))
                (λ e q. absurd (none-ne-some e q))
          | Added.refused e es done eq _ _ ↦
              aged now c rt (record rt { buckets = set rt.buckets i b }) (some e)
                (rw (if_neg _ other, found, done))
                (All-set (λ (x : KBucket). Ordered now x.entries) rt.buckets i b r o)
                (λ x q. (
                  b,
                  found,
                  subst (λ (y : NodeContact). All (λ z. y.last_seen ≤ z.last_seen) b.entries)
                      (some-injective e x q) (head_least now i rt b e es r found eq),
                ))
        ]
  ],
)

pub evict_and_replace-IsRecent :
    (now : ℕ) (c : NodeContact) (rt : RoutingTable) (i : ℕ) (b : KBucket)
    → IsRecent now rt
    → get_elem? rt.buckets i ≡ some b
    → IsRecent now (record rt { buckets = set rt.buckets i (Bucket.evict now c b) })
evict_and_replace-IsRecent now c rt i b r found =
    All-set (λ (x : KBucket). Ordered now x.entries) rt.buckets i (Bucket.evict now c b) r
      (evict-Ordered b now (All-get (λ (x : KBucket). Ordered now x.entries) rt.buckets i b r found)
        c)
