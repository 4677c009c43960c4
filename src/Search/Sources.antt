-- ===== src/Search/Sources.antt =====
-- internal/search/engine.go: the candidates of `searchLocal` and `searchGossip`.
pub mod Filters
pub mod Relevant
pub mod Exact
use agent_dns.Search.Engine.{
  Entity, SearchRequest, is_equal, admits, is_exact_match, normalized, agrees, trim_space,
}
use agent_dns.Ranking.{Numbers, CandidateResult, Candidate}
use agent_dns.Prelude.{
  ℕ, zero, suc, Bool, true, false, ◌&&◌, ◌||◌, not, List, [], ◌∷◌, Option, none, some, Bytes,
  Bytes-discrete, codes, if◌then◌else◌,
}
use agent_dns.Prelude.Assoc.{lookup, insert}

module _ (nu : Numbers) (unicode : ℕ → ℕ) where
  abbrev pub Scores : Type 0
  Scores = List (Bytes × nu.Number)

  abbrev pub Candidates : Type 0
  Candidates = List (Bytes × Candidate nu)

  -- What the engine is given: the results of the two indexes, and what the store returns, `none` for
  -- an error or a missing entity.
  pub record Sources : Type 0 where
    pub keyword_results : Scores
    pub semantic_results : Scores
    pub get_entity : Bytes → Option Entity
    pub all_local : Option (List Entity)

  unfoldable pub candidate_of :
      nu.Number → nu.Number → nu.Number → nu.Number → Entity → Candidate nu
  candidate_of text semantic trust availability e = record {
    entity_id = e.entity_id;
    name = e.name;
    summary = e.summary;
    category = e.category;
    tags = e.tags;
    entity_url = e.entity_url;
    home_registry = e.home_registry;
    status = e.status;
    updated_at = e.updated_at;
    text_relevance = text;
    semantic_similarity = semantic;
    trust_score = trust;
    freshness = nu.tenths 0;
    availability = availability;
    final_score = nu.tenths 0;
    card = none;
    fqan = [];
    developer_handle = [];
    developer_id = e.developer_id;
    entity_type = e.entity_type;
    openapi_url = e.openapi_url;
    entity_pricing = e.entity_pricing;
  }

  -- A candidate of a local entity.
  abbrev pub local_candidate : nu.Number → nu.Number → Entity → Candidate nu
  local_candidate text semantic e = candidate_of text semantic (nu.tenths 5) (nu.tenths 10) e

  unfoldable pub max_score : nu.Number → Scores → nu.Number
  max_score m [] = m
  max_score m ((id, score) ∷ results) = max_score (if nu.greater score m then score else m) results

  -- The text relevance of a keyword result, boosted to 2.5 for an exact match.
  abbrev pub boosted : SearchRequest → nu.Number → nu.Number → Entity → nu.Number
  boosted req max score e =
      if is_exact_match unicode req.query e
      then nu.tenths 25
      else if nu.greater max (nu.tenths 0)
      then nu.quotient score max
      else nu.tenths 0

  abbrev pub add_admitted :
      SearchRequest → Bytes → Option Entity → (Entity → Candidate nu) → Candidates → Candidates
  add_admitted req id none f m = m
  add_admitted req id (some e) f m =
      if admits unicode req e then insert Bytes-discrete id (f e) m else m

  unfoldable pub add_keyword :
      SearchRequest → Sources → nu.Number → Scores → Candidates → Candidates
  unfolding insert
  add_keyword req src max [] m = m
  add_keyword req src max ((id, score) ∷ results) m =
      let f : Entity → Candidate nu =
        λ e. local_candidate (boosted req max score e) (nu.tenths 0) e in
      add_keyword req src max results (add_admitted req id (src.get_entity id) f m)

  abbrev pub add_similar :
      SearchRequest → Sources → Bytes → nu.Number → Option (Candidate nu) → Candidates → Candidates
  unfolding insert
  add_similar req src id score (some c) m =
      insert Bytes-discrete id (record c { semantic_similarity = score }) m
  add_similar req src id score none m =
      let f : Entity → Candidate nu = λ e. local_candidate (nu.tenths 0) score e in
      add_admitted req id (src.get_entity id) f m

  unfoldable pub add_semantic : SearchRequest → Sources → Scores → Candidates → Candidates
  unfolding add_similar lookup
  add_semantic req src [] m = m
  add_semantic req src ((id, score) ∷ results) m =
      add_semantic req src results (add_similar req src id score (lookup Bytes-discrete id m) m)

  -- Browsing everything, browsing by a filter, or an exact match.
  unfoldable pub qualifies : SearchRequest → Entity → Bool
  unfolding normalized is_exact_match trim_space
  qualifies req e =
      let no_query = is_equal (normalized unicode req.query) [] in
      let has_category = not (is_equal (trim_space req.category) []) in
      let has_tag : Bool = elim req.tags [ [] ↦ false | t ∷ ts ↦ true ] in
      no_query && not has_category && not has_tag
      || (has_category && no_query
          || (has_tag && no_query || not no_query && is_exact_match unicode req.query e))

  abbrev pub add_exact : Entity → Option (Candidate nu) → Candidates → Candidates
  add_exact e (some c) m =
      if nu.greater (nu.tenths 25) c.text_relevance
      then insert Bytes-discrete e.entity_id (record c { text_relevance = nu.tenths 25 }) m
      else m
  add_exact e none m =
      insert Bytes-discrete e.entity_id (local_candidate (nu.tenths 25) (nu.tenths 0) e) m

  unfoldable pub add_listed : SearchRequest → List Entity → Candidates → Candidates
  unfolding add_exact lookup insert qualifies
  add_listed req [] m = m
  add_listed req (e ∷ es) m = add_listed req es (
      if admits unicode req e && qualifies req e
      then add_exact e (lookup Bytes-discrete e.entity_id m) m
      else m)

  abbrev pub values : Candidates → List (Candidate nu)
  values [] = []
  values ((id, c) ∷ m) = c ∷ values m

  abbrev pub listed : Option (List Entity) → List Entity
  listed none = []
  listed (some es) = es

  -- The map that `searchLocal` fills.
  unfoldable pub merge_local : SearchRequest → Sources → Candidates
  unfolding add_keyword add_semantic add_listed max_score
  merge_local req src =
      let max = max_score (nu.tenths 0) src.keyword_results in
      add_listed req (listed src.all_local)
        (add_semantic req src src.semantic_results (add_keyword req src max src.keyword_results []))

  unfoldable pub search_local : SearchRequest → Sources → List (Candidate nu)
  unfolding merge_local
  search_local req src = values (merge_local req src)

  -- The score of the entry, if it is among the results of the keyword search with the limit 1.
  abbrev pub text_score : Bytes → Scores → nu.Number
  text_score id [] = nu.tenths 0
  text_score id ((k, score) ∷ results) = if is_equal k id then score else text_score id results

  -- `similarity` is the cosine of the embedded query and the embedded entry.
  unfoldable pub search_gossip :
      SearchRequest → Scores → (Entity → nu.Number) → List Entity → List (Candidate nu)
  search_gossip req top similarity [] = []
  search_gossip req top similarity (e ∷ entries) =
      let rest = search_gossip req top similarity entries in
      if not (is_equal e.status (codes "inactive"))
        && (agrees unicode req.developer_id e.developer_id
            && agrees unicode req.entity_type e.entity_type)
      then candidate_of (text_score e.entity_id top) (similarity e) (nu.tenths 3) (nu.tenths 9) e
        ∷ rest
      else rest
