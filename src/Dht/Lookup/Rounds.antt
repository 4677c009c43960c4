-- ===== src/Dht/Lookup/Rounds.antt =====
-- What the node lookup returns and whom it asks, whatever the peers answer and in whatever order.
use agent_dns.Dht.Lookup.Batches.{
  AreRounds, Foreign, IsBatch, AreFresh, find_rounds-Foreign, find_rounds-AreFresh, cut-All,
}
use agent_dns.Dht.Lookup.Near.{IsNear, cut-IsNear, dedup-IsNear, find_rounds-IsNear, All-IsNear}
use agent_dns.Dht.Lookup.Nearest.{dedup-All, dedup-Distinct, cut_lem}
use agent_dns.Dht.Node.Joining.{IsValid}
use agent_dns.Dht.Node.{Node}
use agent_dns.Dht.Routing.Invariant.{IsValid as TableIsValid, Slots}
use agent_dns.Prelude.{if_neg}
use agent_dns.Dht.Bucket.Extract.{Distinct}
use agent_dns.Dht.Bucket.{NodeContact, KBucket}
use agent_dns.Dht.Lookup.{
  Round, is_in, without, to_query, cut, proceed, find_rounds, dedup, iterative_find_node,
}
use agent_dns.Dht.NodeId.{NodeId, IsNodeId}
use agent_dns.Dht.Routing.Closest.{metric, first-append}
use agent_dns.Dht.Routing.{RoutingTable, find_closest, closer, first, all_nodes, all_entries}
use agent_dns.Prelude.Sort.{sort, IsSorted}
use agent_dns.Prelude.{
  ℕ, ◌+◌, ◌≤◌, ◌<◌, ◌≡◌, ◌⊎◌, refl, sym, ap, ◌∙◌, subst, Bool, true, false, List, [], ◌∷◌, inl, inr,
  length, All, All-append, All-imp, arith, Bytes-discrete, ltb,
}

-- What a lookup returns, and whom its rounds ask: of what the table gives, each contact has one in the
-- result that is as near to the target, and the first round asks them all.
pub record IsLookup (rounds : List Round) (target : NodeId) (d : Node)
    (r : List NodeContact × List (List NodeContact)) : Type 0 where
  pub few : length r.0 ≤ d.config.k
  pub sorted : IsSorted (metric target) r.0
  pub distinct : Distinct r.0
  pub foreign : All (Foreign d.self_id) r.0
  pub batches : All (IsBatch d.self_id d.config.alpha) r.1
  pub fresh : AreFresh (d.self_id ∷ []) r.1
  pub near : All (λ c. IsNear target c r.0) (find_closest target d.config.alpha d.routing_table)
  pub first_asked :
      (find_closest target d.config.alpha d.routing_table ≡ [])
      ⊎ ((rest : List (List NodeContact)) × (r.1
            ≡ find_closest target d.config.alpha d.routing_table ∷ rest))

entries-Foreign :
    (self : NodeId) (k i : ℕ) (bs : List KBucket)
    → Slots self k i bs
    → All (Foreign self) (all_entries bs)
unfolding all_entries
entries-Foreign self k i [] h = tt
entries-Foreign self k i (b ∷ bs) (s, h) =
    All-append (Foreign self) b.entries (all_entries bs)
      (All-imp (λ c p. (p.0, p.1)) b.entries s.valid.belong) (entries-Foreign self k (i + 1) bs h)

closest-Foreign :
    (rt : RoutingTable) (target : NodeId) (count : ℕ)
    → TableIsValid rt
    → All (Foreign rt.self_id) (find_closest target count rt)
unfolding find_closest all_nodes
closest-Foreign rt target count v =
    cut-All (Foreign rt.self_id) target count (all_entries rt.buckets)
      (entries-Foreign rt.self_id rt.k 0 rt.buckets v.slots)

pub closest_bound :
    (target : NodeId) (count : ℕ) (rt : RoutingTable)
    → length (find_closest target count rt) ≤ count
unfolding find_closest
closest_bound target count rt =
    let (rest, whole, len) = first-append count (sort (closer target) (all_nodes rt)) in
    omega (arith, len)

without-fresh :
    (self : NodeId) (xs : List NodeContact) → All (Foreign self) xs → without (self ∷ []) xs ≡ xs
unfolding without is_in
without-fresh self [] h = refl
without-fresh self (x ∷ xs) ((id, other), h) =
    let out : is_in x.id (self ∷ []) ≡ false =
      if_neg (Bytes-discrete self x.id) (λ e. other (sym e)) true false in
    rw (out, without-fresh self xs h) refl

first-all : (k : ℕ) (xs : List NodeContact) → length xs ≤ k → first k xs ≡ xs
first-all k xs h = let out : ltb k (length xs) ≡ false = ground arith in rw out refl

pub to_query_all :
    (self : NodeId) (alpha : ℕ) (xs : List NodeContact)
    → All (Foreign self) xs
    → length xs ≤ alpha
    → to_query alpha (self ∷ []) xs ≡ xs
to_query_all self alpha xs known bound =
    ap (first alpha) (without-fresh self xs known) ∙ first-all alpha xs bound

-- The contacts of the table that a lookup starts with.
pub known_closest :
    (target : NodeId) (d : Node)
    → IsValid d
    → All (Foreign d.self_id) (find_closest target d.config.alpha d.routing_table)
known_closest target d v =
    subst (λ s. All (Foreign s) (find_closest target d.config.alpha d.routing_table)) v.own
      (closest-Foreign d.routing_table target d.config.alpha v.table)

proceed_first :
    (x : NodeContact) (asked new : List NodeContact) (complete : Bool) (result : List NodeContact)
    (rest : List NodeContact × List (List NodeContact))
    → (more : List (List NodeContact)) × ((proceed (x ∷ asked) new complete result rest).1
        ≡ (x ∷ asked) ∷ more)
proceed_first x asked new false result rest = ([], refl)
proceed_first x asked [] true result rest = ([], refl)
proceed_first x asked (y ∷ new) true result rest = (rest.1, refl)

find_rounds_first :
    (self target : NodeId) (alpha k : ℕ) (rounds : List Round) (x : NodeContact)
    (xs : List NodeContact)
    → to_query alpha (self ∷ []) (x ∷ xs) ≡ x ∷ xs
    → (more : List (List NodeContact)) × ((find_rounds self target alpha k rounds
          (self ∷ [])
          (x ∷ xs)).1
        ≡ (x ∷ xs) ∷ more)
unfolding find_rounds
find_rounds_first self target alpha k [] x xs h = ([], ap (λ b. b ∷ []) h)
find_rounds_first self target alpha k (r ∷ rounds) x xs h =
    rw h (proceed_first x xs _ r.complete (x ∷ xs) _)

looked :
    (rounds : List Round) (target : NodeId) (d : Node) (closest : List NodeContact)
    → find_closest target d.config.alpha d.routing_table ≡ closest
    → 0 < d.config.k
    → IsNodeId target
    → AreRounds rounds
    → All (Foreign d.self_id) closest
    → length closest ≤ d.config.alpha
    → IsLookup rounds target d (
        let (result, asked) =
          find_rounds d.self_id target d.config.alpha d.config.k rounds (d.self_id ∷ []) closest in
        elim closest [ [] ↦ ([], []) | _ ∷ _ ↦ (cut target d.config.k (dedup [] result), asked) ])
looked rounds target d [] e pos t h known bound = record {
  few = omega arith;
  sorted = tt;
  distinct = tt;
  foreign = tt;
  batches = tt;
  fresh = tt;
  near = subst (All (λ c. IsNear target c [])) (sym e) tt;
  first_asked = inl e;
}
looked rounds target d (x ∷ xs) e pos t h known bound =
    let self = d.self_id in
    let run = find_rounds self target d.config.alpha d.config.k rounds (self ∷ []) (x ∷ xs) in
    let all =
      find_rounds-Foreign self target d.config.alpha d.config.k rounds (self ∷ []) (x ∷ xs) h
        known in
    let ids = dedup-All (λ c. IsNodeId c.id) [] run.0 (All-imp (λ c p. p.0) run.0 all.0) in
    let (sorted, distinct, few) =
      cut_lem target d.config.k (dedup [] run.0) t ids (dedup-Distinct [] run.0) in
    let whole = to_query_all self d.config.alpha (x ∷ xs) known bound in
    let (more, asked) = find_rounds_first self target d.config.alpha d.config.k rounds x xs whole in
    record {
      few = few;
      sorted = sorted;
      distinct = distinct;
      foreign =
          cut-All (Foreign self) target d.config.k (dedup [] run.0)
            (dedup-All (Foreign self) [] run.0 all.0);
      batches = all.1;
      fresh =
          find_rounds-AreFresh self target d.config.alpha d.config.k rounds (self ∷ []) (x ∷ xs);
      near = subst (All (λ c. IsNear target c (cut target d.config.k (dedup [] run.0)))) (sym e) (
          All-imp
            (λ c n. cut-IsNear target c d.config.k (dedup [] run.0) t pos ids (
              dedup-IsNear target c run.0 (
                find_rounds-IsNear target c self d.config.alpha d.config.k rounds (self ∷ [])
                  (x ∷ xs) t pos h known n)))
            (x ∷ xs) (All-IsNear target (x ∷ xs)));
      first_asked = inr (more, asked ∙ ap (λ b. b ∷ more) (sym e));
    }

-- `iterativeFindNode` returns at most `K` contacts, nearest first, none twice and never the node
-- itself, where `K` is not 0: for each of the `Alpha` contacts of the table that are nearest to the target it
-- returns one that is as near. Its first round asks all of these, and no round asks more than `Alpha`
-- contacts, the node itself or a contact that an earlier round has asked. This holds whatever the peers
-- answer, in whatever order, and whenever the timeout strikes.
pub iterative_find_node_lem :
    (rounds : List Round) (target : NodeId) (d : Node)
    → IsValid d
    → 0 < d.config.k
    → IsNodeId target
    → AreRounds rounds
    → IsLookup rounds target d (iterative_find_node rounds target d)
unfolding iterative_find_node
iterative_find_node_lem rounds target d v pos t h =
    let closest = find_closest target d.config.alpha d.routing_table in
    looked rounds target d closest refl pos t h (known_closest target d v)
      (closest_bound target d.config.alpha d.routing_table)
