-- ===== src/Search/Response/Pages.antt =====
-- internal/search/engine.go: a client that pages through the results.
use agent_dns.Search.Engine.{SearchRequest}
use agent_dns.Search.Response.{
  SearchConfig, Answers, page_size, ranked, from_offset, trimmed, page, search, enriched, named,
  with_card, with_name,
}
use agent_dns.Search.Response.Distinct.{Distinct, ranked-Distinct}
use agent_dns.Ranking.{Numbers, Candidate, SearchResult, to_search_result}
use agent_dns.Prelude.Assoc.{lookup}
use agent_dns.Prelude.{
  map, Bytes, Bytes-discrete, Option, none, some, false, Bool, ℕ, zero, suc, ◌+◌, ◌-◌, ◌*◌, ◌≤◌,
  ltb, leb, lt→ltb, leb→le, ◌≡◌, refl, sym, ap, ◌∙◌, true, Bool-cases, List, [], ◌∷◌, ◌++◌,
  append-nil, inl, inr, length, take, drop, take_of_length-le, take-append-drop, if◌then◌else◌,
  arith,
}

drop_of_length-le {ℓ} : {A : Type ℓ} (n : ℕ) (xs : List A) → length xs ≤ n → drop n xs ≡ []
drop_of_length-le zero [] h = refl
drop_of_length-le zero (x ∷ xs) h = absurd (omega arith)
drop_of_length-le (suc n) [] h = refl
drop_of_length-le (suc n) (x ∷ xs) h = drop_of_length-le n xs (omega arith)

drop-nil {ℓ} : {A : Type ℓ} (n : ℕ) → drop {A = A} n [] ≡ []
drop-nil zero = refl
drop-nil (suc n) = refl

drop-drop {ℓ} : {A : Type ℓ} (m n : ℕ) (xs : List A) → drop m (drop n xs) ≡ drop (n + m) xs
drop-drop m zero xs = ap (λ k. drop k xs) (omega arith)
drop-drop m (suc n) [] = drop-nil m ∙ sym (drop-nil (suc n + m))
drop-drop m (suc n) (x ∷ xs) =
    let same : suc (n + m) ≡ suc n + m = omega arith in
    drop-drop m n xs ∙ ap (λ k. drop k (x ∷ xs)) same

length-drop {ℓ} : {A : Type ℓ} (n : ℕ) (xs : List A) → length (drop n xs) ≡ length xs - n
length-drop zero xs = omega arith
length-drop (suc n) [] = omega arith
length-drop (suc n) (x ∷ xs) = omega (arith, length-drop n xs)

map-append {ℓ} :
    {A B : Type ℓ} (f : A → B) (xs ys : List A) → map f (xs ++ ys) ≡ map f xs ++ map f ys
map-append f [] ys = refl
map-append f (x ∷ xs) ys = ap (◌∷◌ (f x)) (map-append f xs ys)

length-map {ℓ} : {A B : Type ℓ} (f : A → B) (xs : List A) → length (map f xs) ≡ length xs
length-map f [] = refl
length-map f (x ∷ xs) = ap suc (length-map f xs)

abbrev pub shown_ids : (nu : Numbers) → List (SearchResult nu.Number) → List Bytes
shown_ids nu = map (λ (r : SearchResult nu.Number). r.entity_id)

module _ (nu : Numbers) (cfg : SearchConfig nu) (req : SearchRequest) (a : Answers nu) where
  -- The request for the page at an offset.
  abbrev pub at : ℕ → SearchRequest
  at offset = record req { offset = offset }

  from_offset-drop :
      (offset : ℕ) (cs : List (Candidate nu)) → from_offset nu offset cs ≡ drop offset cs
  unfolding from_offset
  from_offset-drop zero cs = refl
  from_offset-drop (suc n) cs =
      let offset : ltb 0 (suc n) ≡ true = lt→ltb 0 (suc n) (omega arith) in
      elim (Bool-cases (leb (length cs) (suc n))) [
        | inl e ↦ rw (offset, e) (sym (drop_of_length-le (suc n) cs (leb→le (length cs) (suc n) e)))
        | inr e ↦ rw (offset, e) refl
      ]

  trimmed-take : (n : ℕ) (cs : List (Candidate nu)) → trimmed nu n cs ≡ take n cs
  unfolding trimmed
  trimmed-take n cs = elim (Bool-cases (ltb n (length cs))) [
    | inl e ↦ rw e refl
    | inr e ↦ rw e (sym (take_of_length-le n cs (ground arith)))
  ]

  all_ranked : List (Candidate nu)
  all_ranked = ranked nu cfg req.entity_type req.federated a

  size : ℕ
  size = page_size nu cfg req

  page-take : (offset : ℕ) → page nu cfg (at offset) a ≡ take size (drop offset all_ranked)
  unfolding page all_ranked size
  page-take offset =
      trimmed-take (page_size nu cfg req)
        (from_offset nu offset (ranked nu cfg req.entity_type req.federated a))
      ∙ ap (take (page_size nu cfg req))
          (from_offset-drop offset (ranked nu cfg req.entity_type req.federated a))

  has_more-ltb :
      (offset : ℕ)
      → (search nu cfg (at offset) a).has_more ≡ ltb size (length (drop offset all_ranked))
  unfolding search all_ranked size
  has_more-ltb offset =
      ap (λ (cs : List (Candidate nu)). ltb (page_size nu cfg req) (length cs))
        (from_offset-drop offset (ranked nu cfg req.entity_type req.federated a))

  -- A client that starts at an offset and follows `has_more`, for as many pages as its fuel allows.
  unfoldable pub collect : ℕ → ℕ → List (SearchResult nu.Number)
  collect zero offset = []
  collect (suc fuel) offset =
      let rest = collect fuel (offset + page_size nu cfg req) in
      let response = search nu cfg (at offset) a in
      response.results ++ (if response.has_more then rest else [])

  abbrev ids : List (Candidate nu) → List Bytes
  ids = map (λ (c : Candidate nu). c.entity_id)

  with_card-id :
      (o : Option (Bytes × Bytes)) (c : Candidate nu) → (with_card nu o c).entity_id ≡ c.entity_id
  with_card-id none c = refl
  with_card-id (some (card, status)) c = refl

  with_name-id :
      (o : Option (Bytes × Bytes)) (c : Candidate nu) → (with_name nu o c).entity_id ≡ c.entity_id
  with_name-id none c = refl
  with_name-id (some (fqan, handle)) c = refl

  enriched-ids : (n : ℕ) (cs : List (Candidate nu)) → ids (enriched nu a n cs) ≡ ids cs
  unfolding enriched
  enriched-ids zero cs = refl
  enriched-ids (suc n) [] = refl
  enriched-ids (suc n) (c ∷ cs) =
      λ i. with_card-id (a.fetch_card c.entity_id c.entity_url) c i ∷ enriched-ids n cs i

  -- Neither cards nor names change which entities are on a page.
  shown-enriched :
      (enrich : Bool) (cs : List (Candidate nu))
      → ids (if enrich then enriched nu a 10 cs else cs) ≡ ids cs
  shown-enriched true cs = enriched-ids 10 cs
  shown-enriched false cs = refl

  named-ids :
      (names : Option (List (Bytes × (Bytes × Bytes)))) (cs : List (Candidate nu))
      → ids (named nu names cs) ≡ ids cs
  unfolding named
  named-ids none cs = refl
  named-ids (some names) [] = refl
  named-ids (some names) (c ∷ cs) =
      λ i. with_name-id (lookup Bytes-discrete c.entity_id names) c i ∷ named-ids (some names) cs i

  shown-ids : (cs : List (Candidate nu)) → shown_ids nu (map (to_search_result nu) cs) ≡ ids cs
  unfolding to_search_result
  shown-ids [] = refl
  shown-ids (c ∷ cs) = ap (◌∷◌ c.entity_id) (shown-ids cs)

  results-ids :
      (offset : ℕ)
      → shown_ids nu (search nu cfg (at offset) a).results
        ≡ ids (take size (drop offset all_ranked))
  unfolding search
  results-ids offset =
      let on_page = page nu cfg (at offset) a in
      shown-ids (named nu a.zns_names (if req.enrich then enriched nu a 10 on_page else on_page))
      ∙ named-ids a.zns_names (if req.enrich then enriched nu a 10 on_page else on_page)
      ∙ shown-enriched req.enrich on_page
      ∙ ap ids (page-take offset)

  collect-drop :
      (fuel offset : ℕ)
      → length all_ranked ≤ offset + fuel * size
      → shown_ids nu (collect fuel offset) ≡ ids (drop offset all_ranked)
  unfolding collect size
  collect-drop zero offset h = ap ids (sym (drop_of_length-le offset all_ranked (omega arith)))
  collect-drop (suc fuel) offset h =
      let left = drop offset all_ranked in
      let step : suc fuel * size ≡ size + fuel * size = grind arith in
      let rest : shown_ids nu (collect fuel (offset + size))
          ≡ ids (drop (offset + size) all_ranked) =
        collect-drop fuel (offset + size) (omega (arith, step)) in
      elim (Bool-cases (ltb size (length left))) [
        | inl e ↦
            rw (has_more-ltb offset, e)
              (map-append _ (search nu cfg (at offset) a).results (collect fuel (offset + size))
                ∙ rw (results-ids offset, rest, ← drop-drop size offset all_ranked)
                    (sym (map-append _ (take size left) (drop size left))
                      ∙ ap ids (take-append-drop size left)))
        | inr e ↦
            rw (has_more-ltb offset, e)
              (map-append _ (search nu cfg (at offset) a).results []
                ∙ append-nil (shown_ids nu (search nu cfg (at offset) a).results)
                ∙ results-ids offset
                ∙ ap ids (take_of_length-le size left (ground arith)))
      ]

  -- A client that follows `has_more` through the pages, with one and the same answer of the sources and
  -- enough fuel, gets in the responses' `results` the entities of the whole ranking: every one that
  -- passes the filters, once and in order, and as many as each response's `total_found` says.
  pub collect_lem :
      (fuel : ℕ)
      → length (ranked nu cfg req.entity_type req.federated a) ≤ fuel * page_size nu cfg req
      → (shown_ids nu (collect fuel 0)
          ≡ map (λ (c : Candidate nu). c.entity_id) (ranked nu cfg req.entity_type req.federated a))
        × Distinct nu (ranked nu cfg req.entity_type req.federated a)
        × ((offset : ℕ) → length (collect fuel 0) ≡ (search nu cfg (at offset) a).total_found)
  unfolding all_ranked size search
  collect_lem fuel h =
      let whole = collect-drop fuel 0 (omega arith) in
      (
        whole,
        ranked-Distinct nu cfg a req.entity_type req.federated,
        λ offset.
            sym (length-map _ (collect fuel 0))
            ∙ ap length whole
            ∙ length-map _ (ranked nu cfg req.entity_type req.federated a),
      )
