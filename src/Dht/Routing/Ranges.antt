-- ===== src/Dht/Routing/Ranges.antt =====
-- Which contacts a bucket is for.
use agent_dns.Dht.NodeId.Bits.{leading_zeros_bounds}
use agent_dns.Dht.NodeId.Metric.{distance-IsNodeId, distance_lem}
use agent_dns.Dht.NodeId.Value.{value}
use agent_dns.Dht.NodeId.{NodeId, IsNodeId, distance, is_zero, leading_zeros}
use agent_dns.Dht.Routing.{num_buckets, bucket_index}
use agent_dns.Prelude.{◌+◌, ◌-◌, ◌^◌, ◌≤◌, ◌<◌, ◌≡◌, ◌≢◌, arith, Bool-cases, inl, inr, sym}

bucket_index_lem :
    (self_id target : NodeId)
    → leading_zeros (distance self_id target) < 256
    → bucket_index self_id target ≡ 255 - leading_zeros (distance self_id target)
unfolding bucket_index
bucket_index_lem self_id target h = ground arith

pub bucket_index-lt : (self_id target : NodeId) → bucket_index self_id target < num_buckets
unfolding bucket_index
bucket_index-lt self_id target = ground arith

-- Bucket `i` is for the identifiers at a distance from 2^i up to 2^(i+1): the index of any other
-- identifier than the local one is the number of the highest bit of its distance.
pub bucket_index_range :
    (self_id target : NodeId)
    → IsNodeId self_id
    → IsNodeId target
    → target ≢ self_id
    → (bucket_index self_id target < num_buckets)
      × (2 ^ bucket_index self_id target ≤ value (distance self_id target))
      × (value (distance self_id target) < 2 ^ (bucket_index self_id target + 1))
bucket_index_range self_id target hs ht ne = elim (Bool-cases (is_zero (distance self_id target))) [
  | inl z ↦
      let (_, same, _, _) = distance_lem self_id target target hs ht ht in
      absurd (ne (sym (same.0 z)))
  | inr nz ↦
      let d = distance self_id target in
      let (small, above, below) =
        leading_zeros_bounds d (distance-IsNodeId self_id target hs ht) nz in
      let next : 255 - leading_zeros d + 1 ≡ 256 - leading_zeros d = omega arith in
      rw (bucket_index_lem self_id target small, next) (omega arith, above, below)
]
