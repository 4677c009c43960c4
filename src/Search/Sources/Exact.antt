-- ===== src/Search/Sources/Exact.antt =====
-- internal/search/engine.go: an entity whose name is the query is always among the local candidates.
use agent_dns.Search.Sources.Filters.{IsListed}
use agent_dns.Search.Engine.{Entity, SearchRequest, admits, normalized, is_exact_match}
use agent_dns.Search.Sources.{
  Candidates, Sources, local_candidate, candidate_of, qualifies, add_exact, add_listed, merge_local,
  add_keyword, add_semantic, max_score,
}
use agent_dns.Ranking.{Numbers, Candidate}
use agent_dns.Prelude.{
  ℕ, true, false, Bool-cases, ◌&&◌, List, [], ◌∷◌, Option, none, some, inl, inr, ◌⊎◌, ◌≡◌, ◌≢◌,
  refl, sym, ap, subst, ◌∙◌, if_pos, if_neg, Bytes, Bytes-discrete, arith,
}
use agent_dns.Prelude.Assoc.{lookup, insert, lookup-insert}

module _ (unicode : ℕ → ℕ) (req : SearchRequest) (e : Entity)
    (asked : normalized unicode req.query ≢ [])
    (named : normalized unicode e.name ≡ normalized unicode req.query) where
  named-is_exact_match : is_exact_match unicode req.query e ≡ true
  unfolding is_exact_match
  named-is_exact_match = ground (arith, asked, named)

module _ (nu : Numbers) (unicode : ℕ → ℕ) (req : SearchRequest)
    (irreflexive : nu.greater (nu.tenths 25) (nu.tenths 25) ≡ false) where
  exact-qualifies :
      (e : Entity)
      → normalized unicode req.query ≢ []
      → normalized unicode e.name ≡ normalized unicode req.query
      → qualifies nu unicode req e ≡ true
  unfolding qualifies
  exact-qualifies e asked named =
      ground (arith, asked, named-is_exact_match unicode req e asked named)

  -- A candidate with a text relevance of 2.5, or of no less.
  abbrev pub IsBoosted : Bytes → Candidates nu unicode → Type 0
  IsBoosted id m =
      (c : Candidate nu) × (lookup Bytes-discrete id m ≡ some c)
      × (nu.greater (nu.tenths 25) c.text_relevance ≡ false)

  insert-IsBoosted :
      (id j : Bytes) (c : Candidate nu) (m : Candidates nu unicode)
      → nu.greater (nu.tenths 25) c.text_relevance ≡ false
      → ((id ≡ j) ⊎ IsBoosted j m)
      → IsBoosted j (insert Bytes-discrete id c m)
  insert-IsBoosted id j c m b (inl p) = (
    c,
    lookup-insert Bytes-discrete id j c m
        ∙ if_pos (Bytes-discrete id j) p (some c) (lookup Bytes-discrete j m),
    b,
  )
  insert-IsBoosted id j c m b (inr (d, found, b')) = elim (Bytes-discrete id j) [
    | yes p ↦ (
      c,
      lookup-insert Bytes-discrete id j c m
          ∙ if_pos (Bytes-discrete id j) p (some c) (lookup Bytes-discrete j m),
      b,
    )
    | no n ↦ (
      d,
      lookup-insert Bytes-discrete id j c m
          ∙ if_neg (Bytes-discrete id j) n (some c) (lookup Bytes-discrete j m)
          ∙ found,
      b',
    )
  ]

  add_exact-IsBoosted :
      (x : Entity) (j : Bytes) (o : Option (Candidate nu)) (m : Candidates nu unicode)
      → lookup Bytes-discrete x.entity_id m ≡ o
      → ((x.entity_id ≡ j) ⊎ IsBoosted j m)
      → IsBoosted j (add_exact nu unicode x o m)
  unfolding add_exact candidate_of
  add_exact-IsBoosted x j none m e h =
      insert-IsBoosted x.entity_id j (local_candidate nu unicode (nu.tenths 25) (nu.tenths 0) x) m
        irreflexive h
  add_exact-IsBoosted x j (some c) m e h =
      elim (Bool-cases (nu.greater (nu.tenths 25) c.text_relevance)) [
        | inl q ↦ rw q (
            insert-IsBoosted x.entity_id j (record c { text_relevance = nu.tenths 25 }) m
              irreflexive h)
        | inr q ↦ rw q (elim h [
          | inl p ↦ (c, subst (λ k. lookup Bytes-discrete k m ≡ some c) p e, q)
          | inr b ↦ b
        ])
      ]

  add_listed-keeps :
      (es : List Entity) (j : Bytes) (m : Candidates nu unicode)
      → IsBoosted j m
      → IsBoosted j (add_listed nu unicode req es m)
  unfolding add_listed
  add_listed-keeps [] j m h = h
  add_listed-keeps (x ∷ es) j m h =
      elim (Bool-cases (admits unicode req x && qualifies nu unicode req x)) [
        | inl q ↦ rw q (
            add_listed-keeps es j (add_exact nu unicode x (lookup Bytes-discrete x.entity_id m) m)
              (add_exact-IsBoosted x j (lookup Bytes-discrete x.entity_id m) m refl (inr h)))
        | inr q ↦ rw q (add_listed-keeps es j m h)
      ]

  add_listed-IsBoosted :
      (e : Entity) (es : List Entity) (m : Candidates nu unicode)
      → IsListed e es
      → admits unicode req e && qualifies nu unicode req e ≡ true
      → IsBoosted e.entity_id (add_listed nu unicode req es m)
  unfolding add_listed
  add_listed-IsBoosted e [] m i h = elim i [ ]
  add_listed-IsBoosted e (x ∷ es) m (inl p) h =
      let h' : admits unicode req x && qualifies nu unicode req x ≡ true =
        subst (λ y. admits unicode req y && qualifies nu unicode req y ≡ true) p h in
      let here =
        add_exact-IsBoosted x e.entity_id (lookup Bytes-discrete x.entity_id m) m refl
          (inl (ap (λ (y : Entity). y.entity_id) (sym p))) in
      rw h' (
        add_listed-keeps es e.entity_id
          (add_exact nu unicode x (lookup Bytes-discrete x.entity_id m) m) here)
  add_listed-IsBoosted e (x ∷ es) m (inr i) h =
      elim (Bool-cases (admits unicode req x && qualifies nu unicode req x)) [
        | inl q ↦ rw q (
            add_listed-IsBoosted e es
              (add_exact nu unicode x (lookup Bytes-discrete x.entity_id m) m) i h)
        | inr q ↦ rw q (add_listed-IsBoosted e es m i h)
      ]

  -- An entity that the store lists, that passes the request's filters, and whose name is the query up to
  -- case and surrounding space, is a candidate, whatever the two indexes returned, and its text
  -- relevance is not below 2.5. Of the order on scores only that 2.5 is not above itself is used.
  pub merge_local-named :
      (src : Sources nu unicode) (e : Entity) (es : List Entity)
      → src.all_local ≡ some es
      → IsListed e es
      → admits unicode req e ≡ true
      → normalized unicode req.query ≢ []
      → normalized unicode e.name ≡ normalized unicode req.query
      → IsBoosted e.entity_id (merge_local nu unicode req src)
  unfolding merge_local
  merge_local-named src e es given i h asked named =
      let max = max_score nu unicode (nu.tenths 0) src.keyword_results in
      let found = add_keyword nu unicode req src max src.keyword_results [] in
      let similar = add_semantic nu unicode req src src.semantic_results found in
      rw given
        (add_listed-IsBoosted e es similar i (ground (arith, h, exact-qualifies e asked named)))
