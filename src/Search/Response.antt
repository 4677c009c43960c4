-- ===== src/Search/Response.antt =====
-- internal/search/engine.go: `Search`, from the candidates of the sources to the response. The clock, and so the
-- latency, is left out. What `FetchCard` returns for an entity is a card and its status, or `none`;
-- cards are fetched after the ranking and change no order.
pub mod Distinct
pub mod Pages
use agent_dns.Search.Engine.{SearchRequest, is_equal}
use agent_dns.Ranking.{
  Numbers, CandidateResult, RankingConfig, SearchResult, Candidate, rank, deduplicate,
  to_search_result,
}
use agent_dns.Prelude.{
  ℕ, ◌+◌, ◌-◌, ◌*◌, ltb, leb, ◌==◌, Bool, true, false, not, List, [], ◌∷◌, ◌++◌, Option, none, some,
  Bytes, Bytes-discrete, map, codes, length, take, drop, if◌then◌else◌,
}
use agent_dns.Prelude.Assoc.{lookup}

pub record SearchStats : Type 0 where
  pub local_results : ℕ
  pub gossip_results : ℕ
  pub federated_results : ℕ
  pub filtered_out : ℕ
  pub peers_queried : ℕ

module _ (nu : Numbers) where
  pub record SearchResponse : Type 0 where
    pub results : List (SearchResult nu.Number)
    pub total_found : ℕ
    pub offset : ℕ
    pub has_more : Bool
    pub search_stats : SearchStats

  pub record SearchConfig : Type 0 where
    pub default_max_results : ℕ
    pub min_score : nu.Number
    pub ranking : RankingConfig nu.Number

  -- What the sources and the services return. `local_first` says which of the two local searches ends
  -- first; `federated` holds the results of the peers, their number, and the number of peers.
  pub record Answers : Type 0 where
    pub local : List (Candidate nu)
    pub gossip : List (Candidate nu)
    pub local_first : Bool
    pub federated : Option (List (SearchResult nu.Number) × ℕ × ℕ)
    pub compute_freshness : Bytes → nu.Number
    pub fetch_card : Bytes → Bytes → Option (Bytes × Bytes)
    pub zns_names : Option (List (Bytes × (Bytes × Bytes)))

  -- `maxResults <= 0`
  abbrev pub page_size : SearchConfig → SearchRequest → ℕ
  page_size cfg req = if req.max_results == 0 then cfg.default_max_results else req.max_results

  abbrev pub asked_peers :
      Bool → Option (List (SearchResult nu.Number) × ℕ × ℕ) → List (SearchResult nu.Number) × ℕ × ℕ
  asked_peers asks none = ([], 0, 0)
  asked_peers asks (some answer) = if asks then answer else ([], 0, 0)

  -- A federated result: the remote score is kept as the final score until the ranker sets it.
  unfoldable pub of_federated : SearchResult nu.Number → Candidate nu
  of_federated r = record {
    entity_id = r.entity_id;
    name = r.name;
    summary = r.summary;
    category = r.category;
    tags = r.tags;
    entity_url = [];
    home_registry = r.home_registry;
    status = [];
    updated_at = [];
    text_relevance = nu.tenths 0;
    semantic_similarity = nu.tenths 0;
    trust_score = nu.tenths 3;
    freshness = nu.tenths 0;
    availability = nu.tenths 7;
    final_score = r.score;
    card = none;
    fqan = [];
    developer_handle = [];
    developer_id = [];
    entity_type = [];
    openapi_url = [];
    entity_pricing = none;
  }

  unfoldable pub gathered : Bool → Answers → List (Candidate nu)
  unfolding of_federated
  gathered asks a =
      let both = if a.local_first then a.local ++ a.gossip else a.gossip ++ a.local in
      let (results, peers, count) = asked_peers asks a.federated in both ++ map of_federated results

  unfoldable pub of_type : Bytes → List (Candidate nu) → List (Candidate nu)
  of_type entity_type [] = []
  of_type entity_type (c ∷ cs) =
      let rest = of_type entity_type cs in
      if is_equal c.entity_type entity_type then c ∷ rest else rest

  -- `FinalScore >= MinScore`, where neither is NaN.
  unfoldable pub at_least : nu.Number → List (Candidate nu) → List (Candidate nu)
  at_least min_score [] = []
  at_least min_score (c ∷ cs) =
      let rest = at_least min_score cs in
      if nu.greater min_score c.final_score then rest else c ∷ rest

  -- The candidates that make it through every filter, in the order of the ranking.
  unfoldable pub ranked : SearchConfig → Bytes → Bool → Answers → List (Candidate nu)
  unfolding gathered of_type deduplicate rank at_least
  ranked cfg entity_type asks a =
      let all = gathered asks a in
      let typed = if is_equal entity_type [] then all else of_type entity_type all in
      let ordered = rank nu a.compute_freshness cfg.ranking (deduplicate nu typed) in
      if nu.greater cfg.min_score (nu.tenths 0) then at_least cfg.min_score ordered else ordered

  unfoldable pub from_offset : ℕ → List (Candidate nu) → List (Candidate nu)
  from_offset offset cs =
      if ltb 0 offset then (if leb (length cs) offset then [] else drop offset cs) else cs

  unfoldable pub trimmed : ℕ → List (Candidate nu) → List (Candidate nu)
  trimmed max_results cs = if ltb max_results (length cs) then take max_results cs else cs

  -- The availability that the status of a fetched card gives.
  abbrev pub with_card : Option (Bytes × Bytes) → Candidate nu → Candidate nu
  with_card none c = c
  with_card (some (card, status)) c = record c {
    card = some card;
    availability =
        if is_equal status (codes "online")
        then nu.tenths 10
        else if is_equal status (codes "degraded")
        then nu.tenths 5
        else nu.tenths 0;
  }

  -- `enrichCandidates` on the first `n`.
  unfoldable pub enriched : Answers → ℕ → List (Candidate nu) → List (Candidate nu)
  enriched a n cs =
      map (λ (c : Candidate nu). with_card (a.fetch_card c.entity_id c.entity_url) c) (take n cs)
      ++ drop n cs

  abbrev pub with_name : Option (Bytes × Bytes) → Candidate nu → Candidate nu
  with_name none c = c
  with_name (some (fqan, handle)) c = record c { fqan = fqan; developer_handle = handle }

  -- `enrichWithZNS`
  abbrev pub named :
      Option (List (Bytes × (Bytes × Bytes))) → List (Candidate nu) → List (Candidate nu)
  unfolding lookup
  named none cs = cs
  named (some names) cs =
      map (λ (c : Candidate nu). with_name (lookup Bytes-discrete c.entity_id names) c) cs

  -- The candidates of one page.
  unfoldable pub page : SearchConfig → SearchRequest → Answers → List (Candidate nu)
  unfolding ranked from_offset trimmed
  page cfg req a =
      trimmed (page_size cfg req)
        (from_offset req.offset (ranked cfg req.entity_type req.federated a))

  unfoldable pub search : SearchConfig → SearchRequest → Answers → SearchResponse
  unfolding ranked from_offset page enriched named to_search_result
  search cfg req a =
      let all = ranked cfg req.entity_type req.federated a in
      let (fed_results, peers, fed_count) = asked_peers req.federated a.federated in
      let raw_count = length a.local + length a.gossip + fed_count in
      let on_page = page cfg req a in
      let shown = if req.enrich then enriched a 10 on_page else on_page in
      record {
        results = map (to_search_result nu) (named a.zns_names shown);
        total_found = length all;
        offset = req.offset;
        has_more = ltb (page_size cfg req) (length (from_offset req.offset all));
        search_stats = record {
          local_results = length a.local;
          gossip_results = length a.gossip;
          federated_results = fed_count;
          filtered_out = raw_count - length all;
          peers_queried = peers;
        };
      }
