-- ===== src/Ranking.antt =====
-- internal/ranking/ranking.go. The type of scores and its arithmetic, which are floating-point numbers in
-- the code, are parameters; `tenths n` is n / 10 and `reciprocal n` is 1 / (60 + n). Cards and prices are opaque texts.
use agent_dns.Prelude.{
  ℕ, suc, Bool, true, false, List, [], ◌∷◌, Option, none, some, ite, Bytes, Bytes-discrete, map,
  codes, if◌then◌else◌,
}
use agent_dns.Prelude.Assoc.{lookup, insert}
use agent_dns.Prelude.Sort.{sort}

pub record Numbers : Type 1 where
  pub Number : Type 0
  pub tenths : ℕ → Number
  pub plus : Number → Number → Number
  pub times : Number → Number → Number
  pub greater : Number → Number → Bool
  pub quotient : Number → Number → Number
  pub reciprocal : ℕ → Number

pub record CandidateResult (S : Type 0) : Type 0 where
  pub entity_id : Bytes
  pub name : Bytes
  pub summary : Bytes
  pub category : Bytes
  pub tags : List Bytes
  pub entity_url : Bytes
  pub home_registry : Bytes
  pub status : Bytes
  pub updated_at : Bytes
  pub text_relevance : S
  pub semantic_similarity : S
  pub trust_score : S
  pub freshness : S
  pub availability : S
  pub final_score : S
  pub card : Option Bytes
  pub fqan : Bytes
  pub developer_handle : Bytes
  pub developer_id : Bytes
  pub entity_type : Bytes
  pub openapi_url : Bytes
  pub entity_pricing : Option Bytes

pub record RankingConfig (S : Type 0) : Type 0 where
  pub method : Bytes
  pub text_relevance_weight : S
  pub semantic_similarity_weight : S
  pub trust_weight : S
  pub freshness_weight : S
  pub availability_weight : S

pub record SearchResult (S : Type 0) : Type 0 where
  pub entity_id : Bytes
  pub name : Bytes
  pub summary : Bytes
  pub category : Bytes
  pub tags : List Bytes
  pub home_registry : Bytes
  pub status : Bytes
  pub developer_id : Bytes
  pub score : S
  pub breakdown : S × S × S × S × S
  pub card : Option Bytes
  pub fqan : Bytes
  pub developer_handle : Bytes
  pub entity_type : Bytes
  pub url : Bytes
  pub openapi_url : Bytes
  pub entity_pricing : Option Bytes

module _ (nu : Numbers) where
  abbrev pub Candidate : Type 0
  Candidate = CandidateResult nu.Number

  -- `compute_freshness` gives the score of a time's text, now.
  abbrev pub freshened : (Bytes → nu.Number) → Candidate → Candidate
  freshened compute_freshness c = record c { freshness = compute_freshness c.updated_at }

  unfoldable pub raw : RankingConfig nu.Number → Candidate → nu.Number
  raw cfg c =
      nu.plus
        (nu.plus
          (nu.plus
            (nu.plus (nu.times cfg.text_relevance_weight c.text_relevance)
              (nu.times cfg.semantic_similarity_weight c.semantic_similarity))
            (nu.times cfg.trust_weight c.trust_score))
          (nu.times cfg.freshness_weight c.freshness))
        (nu.times cfg.availability_weight c.availability)

  abbrev pub at_most_one : nu.Number → nu.Number
  at_most_one x = if nu.greater x (nu.tenths 10) then nu.tenths 10 else x

  unfoldable pub clamped : nu.Number → nu.Number
  clamped x = let y = at_most_one x in if nu.greater (nu.tenths 0) y then nu.tenths 0 else y

  abbrev pub with_score : RankingConfig nu.Number → Candidate → Candidate
  unfolding raw clamped
  with_score cfg c = record c { final_score = clamped (raw cfg c) }

  -- `tmp[i].raw > tmp[j].raw`
  abbrev pub higher_raw : RankingConfig nu.Number → Candidate → Candidate → Bool
  higher_raw cfg c d = nu.greater (raw cfg c) (raw cfg d)

  unfoldable pub rank_weighted :
      (Bytes → nu.Number) → RankingConfig nu.Number → List Candidate → List Candidate
  unfolding sort with_score raw
  rank_weighted compute_freshness cfg candidates =
      map (with_score cfg) (sort (higher_raw cfg) (map (freshened compute_freshness) candidates))

  -- `rank[c.EntityID] = i + 1`
  unfoldable pub ranks : ℕ → List Candidate → List (Bytes × ℕ) → List (Bytes × ℕ)
  unfolding insert
  ranks i [] m = m
  ranks i (c ∷ cs) m = ranks (suc i) cs (insert Bytes-discrete c.entity_id (suc i) m)

  abbrev pub or_nought : Option ℕ → ℕ
  or_nought none = 0
  or_nought (some n) = n

  -- `1.0/(k+float64(rank))` for the list in the order of one score.
  unfoldable pub share : (Candidate → nu.Number) → List Candidate → Candidate → nu.Number
  unfolding sort ranks lookup
  share score candidates c =
      let ranked = sort (λ x y. nu.greater (score x) (score y)) candidates in
      nu.reciprocal (or_nought (lookup Bytes-discrete c.entity_id (ranks 0 ranked [])))

  unfoldable pub rank_rrf : List Candidate → List Candidate
  unfolding share sort
  rank_rrf candidates =
      let text = share (λ c. c.text_relevance) candidates in
      let semantic = share (λ c. c.semantic_similarity) candidates in
      let trust = share (λ c. c.trust_score) candidates in
      let fused : Candidate → Candidate =
        λ c. record c { final_score = nu.plus (nu.plus (text c) (semantic c)) (trust c) } in
      let by_score : Candidate → Candidate → Bool = λ x y. nu.greater x.final_score y.final_score in
      sort by_score (map fused candidates)

  unfoldable pub rank :
      (Bytes → nu.Number) → RankingConfig nu.Number → List Candidate → List Candidate
  unfolding rank_weighted rank_rrf
  rank compute_freshness cfg candidates =
      ite (Bytes-discrete cfg.method (codes "rrf")) (rank_rrf candidates)
        (rank_weighted compute_freshness cfg candidates)

  abbrev pub is_in : Bytes → List Bytes → Bool
  is_in x [] = false
  is_in x (y ∷ ys) = ite (Bytes-discrete y x) true (is_in x ys)

  unfoldable pub dedup_from : List Bytes → List Candidate → List Candidate
  dedup_from seen [] = []
  dedup_from seen (c ∷ cs) =
      let known = is_in c.entity_id seen in
      let rest = dedup_from (if known then seen else c.entity_id ∷ seen) cs in
      if known then rest else c ∷ rest

  unfoldable pub deduplicate : List Candidate → List Candidate
  unfolding dedup_from
  deduplicate candidates = dedup_from [] candidates

  unfoldable pub to_search_result : Candidate → SearchResult nu.Number
  to_search_result c = record {
    entity_id = c.entity_id;
    name = c.name;
    summary = c.summary;
    category = c.category;
    tags = c.tags;
    home_registry = c.home_registry;
    status = c.status;
    developer_id = c.developer_id;
    score = c.final_score;
    breakdown =
        (c.text_relevance, c.semantic_similarity, c.trust_score, c.freshness, c.availability);
    card = c.card;
    fqan = c.fqan;
    developer_handle = c.developer_handle;
    entity_type = c.entity_type;
    url = c.entity_url;
    openapi_url = c.openapi_url;
    entity_pricing = c.entity_pricing;
  }
