-- ===== src/Tests/Engine.antt =====
-- Runs on the search engine.
use agent_dns.Ranking.{
  Numbers, Candidate, rank, rank_weighted, raw, clamped, deduplicate, dedup_from,
}
use agent_dns.Search.Engine.{
  Entity, SearchRequest, admits, normalized, trim_space, trim_left, trim_right, has_any_tag,
}
use agent_dns.Search.Response.{
  SearchConfig, Answers, gathered, of_type, at_least, ranked, page_size, search,
}
use agent_dns.Search.Response.Distinct.{Distinct}
use agent_dns.Search.Response.Pages.{at, collect, shown_ids, collect_lem}
use agent_dns.Search.Sources.{Sources, candidate_of, search_local, merge_local}
use agent_dns.Search.Sources.Exact.{IsBoosted, merge_local-named}
use agent_dns.Search.Sources.Relevant.{IsRelevant, search_local-IsRelevant}
use agent_dns.Search.Tokens.{to_lower}
use agent_dns.Prelude.{
  ℕ, ◌+◌, ◌*◌, ◌/◌, ◌≤◌, ◌≡◌, ◌≢◌, refl, inl, inr, ltb, true, false, List, [], ◌∷◌, none, some,
  Bytes, Bytes-discrete, ℕ_discrete, codes, length, map, All, ite, arith,
}
use agent_dns.Prelude.Sort.{insert, sort}

abbrev ascii : ℕ → ℕ
ascii r = r

-- Scores in tenths.
abbrev numbers : Numbers
numbers = record {
  Number = ℕ;
  tenths = λ n. n;
  plus = λ x y. x + y;
  times = λ x y. x * y;
  greater = λ x y. ltb y x;
  quotient = λ x y. x * 10 / y;
  reciprocal = λ n. 1000 / (60 + n);
}

abbrev entity : Bytes → Bytes → List Bytes → Entity
entity id name tags = record {
  entity_id = id;
  name = name;
  summary = [];
  category = codes "tools";
  tags = tags;
  entity_url = [];
  home_registry = [];
  status = codes "active";
  updated_at = [];
  developer_id = codes "d1";
  entity_type = codes "agent";
  openapi_url = [];
  entity_pricing = none;
}

abbrev converter : Entity
converter = entity (codes "e1") (codes "URL-to-text") (codes "Web" ∷ [])

abbrev crawler : Entity
crawler = entity (codes "e2") (codes "crawler") (codes "web" ∷ [])

abbrev request : SearchRequest
request = record {
  query = codes " url-to-text";
  category = codes "tools";
  tags = codes "WEB" ∷ [];
  developer_id = [];
  entity_type = [];
  max_results = 1;
  offset = 0;
  federated = false;
  enrich = false;
}

-- The semantic index finds one entity, the keyword index none.
abbrev sources : Sources numbers ascii
sources = record {
  keyword_results = [];
  semantic_results = (codes "e2", 7) ∷ [];
  get_entity = λ id. ite (Bytes-discrete id (codes "e2")) (some crawler) none;
  all_local = some (crawler ∷ converter ∷ []);
}

search_local-IsRelevant_example :
    All (IsRelevant numbers ascii request sources) (search_local numbers ascii request sources)
search_local-IsRelevant_example = search_local-IsRelevant numbers ascii request sources

admitted : admits ascii request converter ≡ true
unfolding admits has_any_tag to_lower Bytes-discrete ℕ_discrete
admitted = refl

asked : normalized ascii request.query ≢ []
unfolding normalized trim_space trim_left trim_right to_lower
asked e = absurd (ground arith)

same_name : normalized ascii converter.name ≡ normalized ascii request.query
unfolding normalized trim_space trim_left trim_right to_lower
same_name = refl

merge_local-named_example :
    IsBoosted numbers ascii request refl (codes "e1") (merge_local numbers ascii request sources)
merge_local-named_example =
    merge_local-named numbers ascii request refl sources converter (crawler ∷ converter ∷ []) refl
      (inr (inl refl)) admitted asked same_name

abbrev candidate : Entity → ℕ → Candidate numbers
candidate e text = candidate_of numbers ascii text 0 5 10 e

abbrev config : SearchConfig numbers
config = record {
  default_max_results = 20;
  min_score = 1;
  ranking = record {
    method = codes "weighted";
    text_relevance_weight = 1;
    semantic_similarity_weight = 0;
    trust_weight = 0;
    freshness_weight = 0;
    availability_weight = 0;
  };
}

-- One entity from both sources, and one that is below the least score.
abbrev answers : Answers numbers
answers = record {
  local = candidate crawler 3 ∷ candidate converter 25 ∷ [];
  gossip = candidate crawler 9 ∷ candidate (entity (codes "e3") [] []) 0 ∷ [];
  local_first = true;
  federated = none;
  compute_freshness = λ t. 5;
  fetch_card = λ id url. none;
  zns_names = none;
}

two_found : length (ranked numbers config [] false answers) ≡ 2
unfolding ranked gathered of_type at_least rank rank_weighted raw clamped deduplicate dedup_from
    sort insert candidate_of Bytes-discrete ℕ_discrete
two_found = refl

enough : length (ranked numbers config [] false answers) ≤ 2 * page_size numbers config request
enough = omega (arith, two_found)

collect_lem_example :
    (shown_ids numbers (collect numbers config request answers 2 0)
      ≡ map (λ (c : Candidate numbers). c.entity_id) (ranked numbers config [] false answers))
    × Distinct numbers (ranked numbers config [] false answers)
    × ((offset : ℕ)
        → length (collect numbers config request answers 2 0)
          ≡ (search numbers config (at numbers config request answers offset) answers).total_found)
collect_lem_example = collect_lem numbers config request answers 2 enough
