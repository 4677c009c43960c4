-- ===== src/Search/Engine.antt =====
-- internal/search/engine.go: the pipeline from the sources' results to the response. The keyword index, the
-- semantic index, the store, the card fetcher and the peers are given as what they return; the
-- candidates of a map are in the order of its list, and which of the two sources is first is given.
use agent_dns.Search.Tokens.{to_lower}
use agent_dns.Prelude.{
  ℕ, leb, ◌==◌, Bool, true, false, ◌&&◌, ◌||◌, not, List, [], ◌∷◌, Option, ite, Bytes,
  Bytes-discrete, codes, if◌then◌else◌,
}

-- The fields of a registry record or a gossip entry that the engine reads.
pub record Entity : Type 0 where
  pub entity_id : Bytes
  pub name : Bytes
  pub summary : Bytes
  pub category : Bytes
  pub tags : List Bytes
  pub entity_url : Bytes
  pub home_registry : Bytes
  pub status : Bytes
  pub updated_at : Bytes
  pub developer_id : Bytes
  pub entity_type : Bytes
  pub openapi_url : Bytes
  pub entity_pricing : Option Bytes

pub record SearchRequest : Type 0 where
  pub query : Bytes
  pub category : Bytes
  pub tags : List Bytes
  pub developer_id : Bytes
  pub entity_type : Bytes
  pub max_results : ℕ
  pub offset : ℕ
  pub federated : Bool
  pub enrich : Bool

abbrev pub is_equal : Bytes → Bytes → Bool
is_equal x y = ite (Bytes-discrete x y) true false

abbrev pub one_of : Bytes → List Bytes → Bool
one_of x [] = false
one_of x (y ∷ ys) = is_equal y x || one_of x ys

-- `unicode.IsSpace`
abbrev pub is_space : ℕ → Bool
is_space r =
    leb 9 r && leb r 13
    || r == 32
    || r == 133
    || r == 160
    || r == 5760
    || leb 8192 r && leb r 8202
    || r == 8232
    || r == 8233
    || r == 8239
    || r == 8287
    || r == 12288

unfoldable pub trim_left : Bytes → Bytes
trim_left [] = []
trim_left (r ∷ s) = let rest = trim_left s in if is_space r then rest else r ∷ s

-- A suffix of spaces is dropped.
unfoldable pub trim_right : Bytes → Bytes
trim_right [] = []
trim_right (r ∷ s) = elim (trim_right s) [
  | [] ↦ if is_space r then [] else r ∷ []
  | x ∷ xs ↦ r ∷ x ∷ xs
]

unfoldable pub trim_space : Bytes → Bytes
unfolding trim_left trim_right
trim_space s = trim_right (trim_left s)

module _ (unicode : ℕ → ℕ) where
  abbrev pub lower_all : List Bytes → List Bytes
  lower_all [] = []
  lower_all (t ∷ ts) = to_lower unicode t ∷ lower_all ts

  unfoldable pub has_any_tag : List Bytes → List Bytes → Bool
  unfolding to_lower
  has_any_tag agent_tags [] = false
  has_any_tag agent_tags (t ∷ filter_tags) =
      one_of (to_lower unicode t) (lower_all agent_tags) || has_any_tag agent_tags filter_tags

  -- `strings.ToLower(strings.TrimSpace(s))`
  unfoldable pub normalized : Bytes → Bytes
  unfolding to_lower trim_space
  normalized s = to_lower unicode (trim_space s)

  abbrev pub any_normalized : Bytes → List Bytes → Bool
  any_normalized q [] = false
  any_normalized q (t ∷ ts) = is_equal (normalized t) q || any_normalized q ts

  unfoldable pub is_exact_match : Bytes → Entity → Bool
  unfolding normalized
  is_exact_match query e =
      let q = normalized query in
      if is_equal q []
      then false
      else is_equal (normalized e.name) q
        || is_equal (normalized e.category) q
        || any_normalized q e.tags

  -- `req.X != "" && agent.X != req.X` is false.
  abbrev pub agrees : Bytes → Bytes → Bool
  agrees wanted given = is_equal wanted [] || is_equal given wanted

  abbrev pub has_tags : List Bytes → List Bytes → Bool
  has_tags [] given = true
  has_tags (t ∷ wanted) given = has_any_tag given (t ∷ wanted)

  -- The request's filters, and the status, as every loop of `searchLocal` applies them.
  unfoldable pub admits : SearchRequest → Entity → Bool
  unfolding has_any_tag
  admits req e =
      not (is_equal e.status (codes "inactive"))
      && (agrees req.category e.category
          && (has_tags req.tags e.tags
              && (agrees req.developer_id e.developer_id && agrees req.entity_type e.entity_type)))
