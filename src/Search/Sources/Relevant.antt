-- ===== src/Search/Sources/Relevant.antt =====
-- internal/search/engine.go: what the filters of a search mean for its candidates.
use agent_dns.Search.Sources.Filters.{IsStored, IsFound, search_local-AreFound}
use agent_dns.Search.Tokens.{to_lower}
use agent_dns.Search.Engine.{is_equal, one_of, lower_all, has_any_tag, agrees, has_tags}
use agent_dns.Search.Engine.{Entity, SearchRequest, admits}
use agent_dns.Search.Sources.{Sources, search_local}
use agent_dns.Ranking.{Numbers, Candidate}
use agent_dns.Prelude.{
  not, ◌≢◌, codes, All-imp, ℕ, Bool, true, false, ◌&&◌, ◌||◌, List, [], ◌∷◌, inl, inr, ◌⊎◌, ◌≡◌,
  refl, sym, subst, Bytes, All, arith,
}

abbrev pub IsOneOf : Bytes → List Bytes → Type 0
IsOneOf t [] = ⊥
IsOneOf t (x ∷ xs) = (t ≡ x) ⊎ IsOneOf t xs

-- Two lists have a tag in common, up to its case.
abbrev pub ShareTag : (ℕ → ℕ) → List Bytes → List Bytes → Type 0
ShareTag unicode given wanted =
    (t : Bytes) × (t' : Bytes) × IsOneOf t given
    × IsOneOf t' wanted
    × (to_lower unicode t ≡ to_lower unicode t')

is_equal-eq : (x y : Bytes) → is_equal x y ≡ true → x ≡ y
is_equal-eq x y h = ground arith

or-cases : (a b : Bool) → a || b ≡ true → (a ≡ true) ⊎ (b ≡ true)
or-cases true b h = inl refl
or-cases false b h = inr h

agrees-cases :
    (unicode : ℕ → ℕ) (wanted given : Bytes)
    → agrees unicode wanted given ≡ true
    → (wanted ≡ []) ⊎ (given ≡ wanted)
agrees-cases unicode wanted given h =
    elim (or-cases (is_equal wanted []) (is_equal given wanted) h) [
      | inl e ↦ inl (is_equal-eq wanted [] e)
      | inr e ↦ inr (is_equal-eq given wanted e)
    ]

one_of-lower_all :
    (unicode : ℕ → ℕ) (x : Bytes) (tags : List Bytes)
    → one_of x (lower_all unicode tags) ≡ true
    → (t : Bytes) × IsOneOf t tags × (to_lower unicode t ≡ x)
one_of-lower_all unicode x [] h = absurd (ground arith)
one_of-lower_all unicode x (t ∷ tags) h =
    elim (or-cases (is_equal (to_lower unicode t) x) (one_of x (lower_all unicode tags)) h) [
      | inl e ↦ (t, inl refl, is_equal-eq (to_lower unicode t) x e)
      | inr e ↦ let (t', i, q) = one_of-lower_all unicode x tags e in (t', inr i, q)
    ]

has_any_tag-ShareTag :
    (unicode : ℕ → ℕ) (given wanted : List Bytes)
    → has_any_tag unicode given wanted ≡ true
    → ShareTag unicode given wanted
unfolding has_any_tag
has_any_tag-ShareTag unicode given [] h = absurd (ground arith)
has_any_tag-ShareTag unicode given (w ∷ wanted) h =
    elim (or-cases (one_of (to_lower unicode w) (lower_all unicode given))
      (has_any_tag unicode given wanted) h) [
        | inl e ↦
            let (t, i, q) = one_of-lower_all unicode (to_lower unicode w) given e in
            (t, w, i, inl refl, q)
        | inr e ↦
            let (t, t', i, j, q) = has_any_tag-ShareTag unicode given wanted e in
            (t, t', i, inr j, q)
      ]

has_tags-cases :
    (unicode : ℕ → ℕ) (wanted given : List Bytes)
    → has_tags unicode wanted given ≡ true
    → (wanted ≡ []) ⊎ ShareTag unicode given wanted
has_tags-cases unicode [] given h = inl refl
has_tags-cases unicode (w ∷ wanted) given h =
    inr (has_any_tag-ShareTag unicode given (w ∷ wanted) h)

and-left : (a b : Bool) → a && b ≡ true → a ≡ true
and-left true b h = refl
and-left false b h = h

and-right : (a b : Bool) → a && b ≡ true → b ≡ true
and-right true b h = h
and-right false b h = absurd (ground arith)

module _ (nu : Numbers) (unicode : ℕ → ℕ) (req : SearchRequest) (src : Sources nu unicode) where
  -- A candidate of an entity of the store that is not inactive, has the category, the developer and the
  -- type that are asked for, where they are, and one of the tags, where there are any.
  pub record IsRelevant (c : Candidate nu) : Type 0 where
    pub entity : Entity
    pub stored : IsStored nu unicode req src entity
    pub same_id : c.entity_id ≡ entity.entity_id
    pub active : c.status ≢ codes "inactive"
    pub in_category : (req.category ≡ []) ⊎ (c.category ≡ req.category)
    pub tagged : (req.tags ≡ []) ⊎ ShareTag unicode c.tags req.tags
    pub of_developer : (req.developer_id ≡ []) ⊎ (c.developer_id ≡ req.developer_id)
    pub of_type : (req.entity_type ≡ []) ⊎ (c.entity_type ≡ req.entity_type)

  relevant : (c : Candidate nu) → IsFound nu unicode req src c → IsRelevant c
  unfolding admits
  relevant c p =
      let e = p.entity in
      let h = p.admitted in
      let status = not (is_equal e.status (codes "inactive")) in
      let category = agrees unicode req.category e.category in
      let tags = has_tags unicode req.tags e.tags in
      let developer = agrees unicode req.developer_id e.developer_id in
      let type_ = agrees unicode req.entity_type e.entity_type in
      let h1 : category && (tags && (developer && type_)) ≡ true = and-right status _ h in
      let h2 : tags && (developer && type_) ≡ true = and-right category _ h1 in
      let h3 : developer && type_ ≡ true = and-right tags _ h2 in
      let h0 : status ≡ true = and-left status (category && (tags && (developer && type_))) h in
      record {
        entity = e;
        stored = p.stored;
        same_id = p.same_id;
        active = λ q. absurd (ground (arith, h0, p.same_status, q));
        in_category =
            subst (λ x. (req.category ≡ []) ⊎ (x ≡ req.category)) (sym p.same_category)
              (agrees-cases unicode req.category e.category
                (and-left category (tags && (developer && type_)) h1));
        tagged =
            subst (λ x. (req.tags ≡ []) ⊎ ShareTag unicode x req.tags) (sym p.same_tags)
              (has_tags-cases unicode req.tags e.tags (and-left tags (developer && type_) h2));
        of_developer =
            subst (λ x. (req.developer_id ≡ []) ⊎ (x ≡ req.developer_id)) (sym p.same_developer)
              (agrees-cases unicode req.developer_id e.developer_id (and-left developer type_ h3));
        of_type =
            subst (λ x. (req.entity_type ≡ []) ⊎ (x ≡ req.entity_type)) (sym p.same_type)
              (agrees-cases unicode req.entity_type e.entity_type (and-right developer type_ h3));
      }

  -- Every local candidate, whichever index or list it comes from, shows an entity that the store gave: one
  -- that is not inactive, has the category, the developer and the type that the request asks for, if
  -- it asks, and one of the tags, up to their case, if it asks for any.
  pub search_local-IsRelevant : All IsRelevant (search_local nu unicode req src)
  search_local-IsRelevant =
      All-imp relevant (search_local nu unicode req src) (search_local-AreFound nu unicode req src)
