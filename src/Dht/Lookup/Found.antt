-- ===== src/Dht/Lookup/Found.antt =====
-- The value lookup.
use agent_dns.Dht.Bucket.{NodeContact}
use agent_dns.Dht.Lookup.Answers.{
  responses, IsQuiet, IsFirst, value_rounds-IsFirst, value_rounds-none,
}
use agent_dns.Prelude.{All, length, take}
use agent_dns.Dht.Lookup.{
  iterative_find_node, find_rounds, cut, dedup, Round, value_rounds, cached, iterative_find_value,
  find_value,
}
use agent_dns.Dht.Node.Serving.{get_local-store_local}
use agent_dns.Dht.Node.{Node, EntityDhtRecord, store_local, get_local}
use agent_dns.Dht.NodeId.{NodeId, IsNodeId}
use agent_dns.Dht.Routing.{find_closest}
use agent_dns.Prelude.{
  ℕ, ◌≡◌, refl, sym, subst, ◌∙◌, List, [], ◌∷◌, Option, none, some, Bytes-discrete, if_pos,
  Option-cases, inl, inr,
}

-- No response holds a value, of those that come in the rounds in which the node lookup for the key asks
-- anybody.
abbrev pub IsUnanswered : NodeId → Node → List Round → Type 0
IsUnanswered key d rounds = All IsQuiet (take (length (iterative_find_node rounds key d).1) rounds)

-- The outcomes of a value lookup.
pub data Found (now : ℕ) (rounds : List Round) (key : NodeId) (d : Node)
    (r : Node × Option EntityDhtRecord) : Type 0 where
  -- The node holds the record, and asks nobody.
  local :
      (v : EntityDhtRecord) → get_local key d ≡ some v → r ≡ (d, some v) → Found now rounds key d r
  -- A peer gives the record, which the node holds from now on.
  fetched :
      (v : EntityDhtRecord)
      → get_local key d ≡ none
      → IsFirst v (responses rounds)
      → r ≡ (store_local now key v d, some v)
      → get_local key r.0 ≡ some v
      → Found now rounds key d r
  missed :
      get_local key d ≡ none → r ≡ (d, none) → IsUnanswered key d rounds → Found now rounds key d r

reads_back :
    (now : ℕ) (key : NodeId) (v : EntityDhtRecord) (d : Node)
    → IsNodeId key
    → get_local key (store_local now key v d) ≡ some v
reads_back now key v d h =
    get_local-store_local now key key v d h h ∙ if_pos (Bytes-discrete key key) refl _ _

cached-Found :
    (now : ℕ) (rounds : List Round) (key : NodeId) (d : Node) (o : Option EntityDhtRecord)
    → IsNodeId key
    → get_local key d ≡ none
    → ((v : EntityDhtRecord) → o ≡ some v → IsFirst v (responses rounds))
    → (o ≡ none → IsUnanswered key d rounds)
    → Found now rounds key d (cached now key o d)
cached-Found now rounds key d none h miss g u = Found.missed miss refl (u refl)
cached-Found now rounds key d (some v) h miss g u =
    Found.fetched v miss (g v refl) refl (reads_back now key v d h)

-- Whom the node lookup asks that starts with given contacts.
abbrev asked_from : NodeId → Node → List Round → List NodeContact → List (List NodeContact)
asked_from key d rounds closest =
    let (result, asked) =
      find_rounds d.self_id key d.config.alpha d.config.k rounds (d.self_id ∷ []) closest in
    let looked : List NodeContact × List (List NodeContact) = elim closest [
      | [] ↦ ([], [])
      | _ ∷ _ ↦ (cut key d.config.k (dedup [] result), asked)
    ] in
    looked.1

unanswered :
    (rounds : List Round) (key : NodeId) (d : Node) (closest : List NodeContact)
    → find_closest key d.config.alpha d.routing_table ≡ closest
    → All IsQuiet (take (length (asked_from key d rounds closest)) rounds)
    → IsUnanswered key d rounds
unfolding iterative_find_node
unanswered rounds key d closest e h =
    subst (λ c. All IsQuiet (take (length (asked_from key d rounds c)) rounds)) (sym e) h

some_candidate :
    (now : ℕ) (rounds : List Round) (key : NodeId) (d : Node) (closest : List NodeContact)
    → find_closest key d.config.alpha d.routing_table ≡ closest
    → IsNodeId key
    → get_local key d ≡ none
    → Found now rounds key d (
        let found =
          value_rounds d.self_id key d.config.alpha d.config.k rounds (d.self_id ∷ []) closest in
        elim closest [ [] ↦ (d, none) | _ ∷ _ ↦ cached now key found d ])
some_candidate now rounds key d [] e h miss =
    Found.missed miss refl (unanswered rounds key d [] e tt)
some_candidate now rounds key d (x ∷ xs) e h miss =
    cached-Found now rounds key d _ h miss
      (value_rounds-IsFirst d.self_id key d.config.alpha d.config.k rounds (d.self_id ∷ [])
        (x ∷ xs))
      (λ lost. unanswered rounds key d (x ∷ xs) e (
        value_rounds-none d.self_id key d.config.alpha d.config.k rounds (d.self_id ∷ []) (x ∷ xs)
          lost))

iterative-Found :
    (now : ℕ) (rounds : List Round) (key : NodeId) (d : Node)
    → IsNodeId key
    → get_local key d ≡ none
    → Found now rounds key d (iterative_find_value now rounds key d)
unfolding iterative_find_value
iterative-Found now rounds key d h miss =
    some_candidate now rounds key d (find_closest key d.config.alpha d.routing_table) refl h miss

find_value_hit :
    (now : ℕ) (rounds : List Round) (key : NodeId) (d : Node) (v : EntityDhtRecord)
    → get_local key d ≡ some v
    → find_value now rounds key d ≡ (d, some v)
unfolding find_value
find_value_hit now rounds key d v h = rw (h, find_value) refl

find_value_miss :
    (now : ℕ) (rounds : List Round) (key : NodeId) (d : Node)
    → get_local key d ≡ none
    → find_value now rounds key d ≡ iterative_find_value now rounds key d
unfolding find_value
find_value_miss now rounds key d h = rw (h, find_value) refl

-- `FindValue` returns the record that the node holds and changes nothing; or, of all responses in the order
-- in which they arrive, the first record, which the node then holds and gives back; or none and changes
-- nothing, but only where no response holds a record, of those that come in the rounds in which
-- `FindNode` for the key asks anybody. This holds whatever the peers answer, in whatever order, and whenever
-- the timeout strikes.
pub find_value_lem :
    (now : ℕ) (rounds : List Round) (key : NodeId) (d : Node)
    → IsNodeId key
    → Found now rounds key d (find_value now rounds key d)
find_value_lem now rounds key d h = elim (Option-cases (get_local key d)) [
  | inr (v, hit) ↦ Found.local v hit (find_value_hit now rounds key d v hit)
  | inl miss ↦
      subst (Found now rounds key d) (sym (find_value_miss now rounds key d miss))
        (iterative-Found now rounds key d h miss)
]
