-- ===== src/Mesh/Peers/Choice.antt =====
-- internal/mesh/peers.go: which peers a query is sent to.
use agent_dns.Mesh.Bloom.{BloomFilter, match_count}
use agent_dns.Mesh.Peers.{
  PeerInfo, PeerManager, PeerScore, scored_peers, pass, exchange_sort, pick, get_relevant_peers,
}
use agent_dns.Prelude.Assoc.{lookup}
use agent_dns.Prelude.{
  ℕ, zero, suc, ◌≤◌, ltb, leb, ◌≡◌, refl, ap, List, [], ◌∷◌, ◌++◌, Bytes, length, map, All, All-imp,
  if◌then◌else◌, Bool-cases, inl, inr, ◌⊎◌, arith, subst, Bytes-discrete, none, some, Option-cases,
}
use mathlib.Core.List.Perm
use mathlib.Core.List.{Perm}

-- No peer has a higher score than one before it.
abbrev pub Descending : List PeerScore → Type 0
Descending [] = Unit
Descending (x ∷ xs) = All (λ y. y.score ≤ x.score) xs × Descending xs

length-pass : (x : PeerScore) (ys : List PeerScore) → length (pass x ys).1 ≡ length ys
unfolding pass
length-pass x [] = refl
length-pass x (y ∷ ys) = ap suc (length-pass (if ltb x.score y.score then y else x) ys)

pass-Perm : (x : PeerScore) (ys : List PeerScore) → Perm ((pass x ys).0 ∷ (pass x ys).1) (x ∷ ys)
unfolding pass
pass-Perm x [] = Perm.refl _
pass-Perm x (y ∷ ys) = elim (Bool-cases (ltb x.score y.score)) [
  | inl h ↦
      rw h (Perm.trans (Perm.swap x (pass y ys).0 (pass y ys).1) (Perm.cons x (pass-Perm y ys)))
  | inr h ↦ rw h (
      Perm.trans (Perm.swap y (pass x ys).0 (pass x ys).1)
        (Perm.trans (Perm.cons y (pass-Perm x ys)) (Perm.swap x y ys)))
]

pass-le : (x : PeerScore) (ys : List PeerScore) → x.score ≤ (pass x ys).0.score
unfolding pass
pass-le x [] = omega arith
pass-le x (y ∷ ys) = ground (arith, pass-le (if ltb x.score y.score then y else x) ys)

-- What a pass brings to the front has the highest score.
pass-All :
    (m : ℕ) (x : PeerScore) (ys : List PeerScore)
    → (pass x ys).0.score ≤ m
    → All (λ y. y.score ≤ m) (pass x ys).1
unfolding pass
pass-All m x [] h = tt
pass-All m x (y ∷ ys) h =
    let z = if ltb x.score y.score then y else x in
    (ground (arith, pass-le z ys), pass-All m z ys h)

exchange_sort-Perm : (n : ℕ) (xs : List PeerScore) → Perm (exchange_sort n xs) xs
unfolding exchange_sort
exchange_sort-Perm zero xs = Perm.refl xs
exchange_sort-Perm (suc n) [] = Perm.refl []
exchange_sort-Perm (suc n) (x ∷ xs) =
    Perm.trans (Perm.cons (pass x xs).0 (exchange_sort-Perm n (pass x xs).1)) (pass-Perm x xs)

module _ (Q : PeerScore → Type 0) where
  pass-keeps :
      (x : PeerScore) (ys : List PeerScore) → Q x → All Q ys → Q (pass x ys).0 × All Q (pass x ys).1
  unfolding pass
  pass-keeps x [] q h = (q, tt)
  pass-keeps x (y ∷ ys) q (p, h) = elim (Bool-cases (ltb x.score y.score)) [
    | inl e ↦ let (a, b) = pass-keeps y ys p h in rw e (a, (q, b))
    | inr e ↦ let (a, b) = pass-keeps x ys q h in rw e (a, (p, b))
  ]

  exchange_sort-All : (n : ℕ) (xs : List PeerScore) → All Q xs → All Q (exchange_sort n xs)
  unfolding exchange_sort
  exchange_sort-All zero xs h = h
  exchange_sort-All (suc n) [] h = tt
  exchange_sort-All (suc n) (x ∷ xs) (q, h) =
      let (a, b) = pass-keeps x xs q h in (a, exchange_sort-All n (pass x xs).1 b)

exchange_sort-Descending :
    (n : ℕ) (xs : List PeerScore) → length xs ≤ n → Descending (exchange_sort n xs)
unfolding exchange_sort
exchange_sort-Descending zero [] h = tt
exchange_sort-Descending zero (x ∷ xs) h = absurd (omega arith)
exchange_sort-Descending (suc n) [] h = tt
exchange_sort-Descending (suc n) (x ∷ xs) h = (
  exchange_sort-All (λ y. y.score ≤ (pass x xs).0.score) n (pass x xs).1
      (pass-All (pass x xs).0.score x xs (omega arith)),
  exchange_sort-Descending n (pass x xs).1 (omega (arith, length-pass x xs)),
)

-- The peers of a result are the first of a list: as many as `max` allows, or all that have a score above
-- 0, and no others.
pub record AreFirst (max : ℕ) (sorted : List PeerScore) (result : List PeerInfo) : Type 0 where
  pub chosen : List PeerScore
  pub others : List PeerScore
  pub names : result ≡ map (λ ps. ps.peer) chosen
  pub whole : chosen ++ others ≡ sorted
  pub positive : All (λ ps. 1 ≤ ps.score) chosen
  pub bound : length chosen ≤ max
  pub full : length chosen ≡ max ⊎ All (λ ps. ps.score ≡ 0) others

pick-none : (n : ℕ) (xs : List PeerScore) → All (λ y. y.score ≡ 0) xs → pick n xs ≡ []
unfolding pick
pick-none zero xs h = refl
pick-none (suc n) [] h = refl
pick-none (suc n) (x ∷ xs) (p, h) = ground (arith, p, pick-none (suc n) xs h)

pick-AreFirst : (n : ℕ) (xs : List PeerScore) → Descending xs → AreFirst n xs (pick n xs)
unfolding pick
pick-AreFirst zero xs d = record {
  chosen = [];
  others = xs;
  names = refl;
  whole = refl;
  positive = tt;
  bound = omega arith;
  full = inl refl;
}
pick-AreFirst (suc n) [] d = record {
  chosen = [];
  others = [];
  names = refl;
  whole = refl;
  positive = tt;
  bound = omega arith;
  full = inr tt;
}
pick-AreFirst (suc n) (x ∷ xs) (p, d) = elim (Bool-cases (leb 1 x.score)) [
  | inl e ↦
      let b = pick-AreFirst n xs d in
      rw e (record {
        chosen = x ∷ b.chosen;
        others = b.others;
        names = ap (◌∷◌ x.peer) b.names;
        whole = ap (◌∷◌ x) b.whole;
        positive = (ground arith, b.positive);
        bound = omega (arith, b.bound);
        full = elim b.full [ inl k ↦ inl (ap suc k) | inr k ↦ inr k ];
      })
  | inr e ↦
      let low : All (λ y. y.score ≡ 0) xs = All-imp (λ y q. ground arith) xs p in
      rw (e, pick-none (suc n) xs low)
        (record {
          chosen = [];
          others = x ∷ xs;
          names = refl;
          whole = refl;
          positive = tt;
          bound = omega arith;
          full = inr (ground arith, low);
        })
]

-- A peer with the number of the tokens that its filter has, or 1 where it has no filter.
abbrev pub ranked_peer : List Bytes → List (Bytes × BloomFilter) → Bytes × PeerInfo → PeerScore
ranked_peer query_tokens blooms (id, peer) = record {
  peer = peer;
  score = elim (lookup Bytes-discrete id blooms) [
    | none ↦ 1
    | some bf ↦ match_count query_tokens bf
  ];
}

scored_peers-map :
    (query_tokens : List Bytes) (blooms : List (Bytes × BloomFilter))
    (peers : List (Bytes × PeerInfo))
    → scored_peers query_tokens blooms peers ≡ map (ranked_peer query_tokens blooms) peers
unfolding scored_peers
scored_peers-map query_tokens blooms [] = refl
scored_peers-map query_tokens blooms ((id, peer) ∷ peers) =
    elim (Option-cases (lookup Bytes-discrete id blooms)) [
      | inl miss ↦ rw (miss, scored_peers-map query_tokens blooms peers) refl
      | inr (bf, hit) ↦ rw (hit, scored_peers-map query_tokens blooms peers) refl
    ]

-- `GetRelevantPeers` returns the peers with the highest scores, the best first, where a peer's score is
-- the number of the tokens that its filter has, or 1 where it has no filter: of all peers in the
-- order of their scores the first, as many as it may return, or all whose score is above 0.
pub get_relevant_peers_lem :
    (query_tokens : List Bytes) (max_peers : ℕ) (pm : PeerManager)
    → (sorted : List PeerScore) × Perm sorted (map (ranked_peer query_tokens pm.blooms) pm.peers)
      × Descending sorted
      × AreFirst max_peers sorted (get_relevant_peers query_tokens max_peers pm)
unfolding get_relevant_peers
get_relevant_peers_lem query_tokens max_peers pm =
    let scored = scored_peers query_tokens pm.blooms pm.peers in
    let sorted = exchange_sort (length scored) scored in
    let order = exchange_sort-Descending (length scored) scored (omega arith) in
    (
      sorted,
      subst (Perm sorted) (scored_peers-map query_tokens pm.blooms pm.peers)
          (exchange_sort-Perm (length scored) scored),
      order,
      pick-AreFirst max_peers sorted order,
    )
