-- ===== src/Search/Sources/Filters.antt =====
-- internal/search/engine.go: where the candidates of `searchLocal` come from.
use agent_dns.Search.Engine.{Entity, SearchRequest, admits}
use agent_dns.Search.Sources.{
  Scores, Candidates, Sources, candidate_of, local_candidate, add_admitted, add_keyword,
  add_similar, add_semantic, qualifies, add_exact, add_listed, values, listed, merge_local,
  search_local, boosted, max_score,
}
use agent_dns.Ranking.{Numbers, Candidate}
use mathlib.Core.Option.{none-ne-some, some-injective}
use agent_dns.Prelude.{
  ℕ, true, Bool-cases, ◌&&◌, List, [], ◌∷◌, Option, none, some, inl, inr, ◌⊎◌, ◌≡◌, refl, sym,
  subst, ◌∙◌, if_pos, if_neg, Bytes, Bytes-discrete, All, arith,
}
use agent_dns.Prelude.Assoc.{lookup, insert, insert-All}

abbrev pub IsListed : Entity → List Entity → Type 0
IsListed e [] = ⊥
IsListed e (x ∷ es) = (e ≡ x) ⊎ IsListed e es

module _ (nu : Numbers) (unicode : ℕ → ℕ) (req : SearchRequest) (src : Sources nu unicode) where
  -- The store gives the entity, by its identifier or in the list of all.
  abbrev pub IsStored : Entity → Type 0
  IsStored e =
      ((id : Bytes) × (src.get_entity id ≡ some e)) ⊎ IsListed e (listed nu unicode src.all_local)

  -- A candidate shows an entity of the store that is active and passes the request's filters.
  pub record IsFound (c : Candidate nu) : Type 0 where
    pub entity : Entity
    pub stored : IsStored entity
    pub admitted : admits unicode req entity ≡ true
    pub same_id : c.entity_id ≡ entity.entity_id
    pub same_category : c.category ≡ entity.category
    pub same_tags : c.tags ≡ entity.tags
    pub same_status : c.status ≡ entity.status
    pub same_developer : c.developer_id ≡ entity.developer_id
    pub same_type : c.entity_type ≡ entity.entity_type

  abbrev AreFound : Candidates nu unicode → Type 0
  AreFound m = All (λ (x : Bytes × Candidate nu). IsFound x.1) m

  candidate_of-IsFound :
      (text semantic trust availability : nu.Number) (e : Entity)
      → IsStored e
      → admits unicode req e ≡ true
      → IsFound (candidate_of nu unicode text semantic trust availability e)
  unfolding candidate_of
  candidate_of-IsFound text semantic trust availability e stored h = record {
    entity = e;
    stored = stored;
    admitted = h;
    same_id = refl;
    same_category = refl;
    same_tags = refl;
    same_status = refl;
    same_developer = refl;
    same_type = refl;
  }

  insert-AreFound :
      (id : Bytes) (c : Candidate nu) (m : Candidates nu unicode)
      → IsFound c
      → AreFound m
      → AreFound (insert Bytes-discrete id c m)
  insert-AreFound id c m p h =
      insert-All Bytes-discrete (λ (x : Bytes × Candidate nu). IsFound x.1) id c m p h

  add_admitted-AreFound :
      (id : Bytes) (f : Entity → Candidate nu) (o : Option Entity) (m : Candidates nu unicode)
      → ((e : Entity) → IsStored e → admits unicode req e ≡ true → IsFound (f e))
      → src.get_entity id ≡ o
      → AreFound m
      → AreFound (add_admitted nu unicode req id o f m)
  unfolding add_admitted
  add_admitted-AreFound id f none m g e h = h
  add_admitted-AreFound id f (some x) m g e h = elim (Bool-cases (admits unicode req x)) [
    | inl p ↦ rw p (insert-AreFound id (f x) m (g x (inl (id, e)) p) h)
    | inr p ↦ rw p h
  ]

  add_keyword-AreFound :
      (max : nu.Number) (results : Scores nu unicode) (m : Candidates nu unicode)
      → AreFound m
      → AreFound (add_keyword nu unicode req src max results m)
  unfolding add_keyword
  add_keyword-AreFound max [] m h = h
  add_keyword-AreFound max ((id, score) ∷ results) m h =
      let f : Entity → Candidate nu =
        λ e. local_candidate nu unicode (boosted nu unicode req max score e) (nu.tenths 0) e in
      add_keyword-AreFound max results (add_admitted nu unicode req id (src.get_entity id) f m) (
        add_admitted-AreFound id f (src.get_entity id) m
          (λ e s p. candidate_of-IsFound _ _ _ _ e s p) refl h)

  lookup-IsFound :
      (id : Bytes) (c : Candidate nu) (m : Candidates nu unicode)
      → AreFound m
      → lookup Bytes-discrete id m ≡ some c
      → IsFound c
  unfolding lookup
  lookup-IsFound id c [] h e = absurd (none-ne-some c e)
  lookup-IsFound id c ((j, x) ∷ m) (p, h) e = elim (Bytes-discrete j id) [
    | yes q ↦
        subst IsFound
          (some-injective x c
            (sym (if_pos (Bytes-discrete j id) q (some x) (lookup Bytes-discrete id m)) ∙ e))
          p
    | no n ↦
        lookup-IsFound id c m h
          (sym (if_neg (Bytes-discrete j id) n (some x) (lookup Bytes-discrete id m)) ∙ e)
  ]

  -- Scores are no part of what a candidate shows.
  rescored :
      (c d : Candidate nu)
      → (c.entity_id ≡ d.entity_id)
        × (c.category ≡ d.category)
        × (c.tags ≡ d.tags)
        × (c.status ≡ d.status)
        × (c.developer_id ≡ d.developer_id)
        × (c.entity_type ≡ d.entity_type)
      → IsFound d
      → IsFound c
  rescored c d (a, b, t, s, v, y) p = record {
    entity = p.entity;
    stored = p.stored;
    admitted = p.admitted;
    same_id = a ∙ p.same_id;
    same_category = b ∙ p.same_category;
    same_tags = t ∙ p.same_tags;
    same_status = s ∙ p.same_status;
    same_developer = v ∙ p.same_developer;
    same_type = y ∙ p.same_type;
  }

  add_similar-AreFound :
      (id : Bytes) (score : nu.Number) (o : Option (Candidate nu)) (m : Candidates nu unicode)
      → lookup Bytes-discrete id m ≡ o
      → AreFound m
      → AreFound (add_similar nu unicode req src id score o m)
  unfolding add_similar
  add_similar-AreFound id score (some c) m e h =
      insert-AreFound id (record c { semantic_similarity = score }) m
        (rescored (record c { semantic_similarity = score }) c (refl, refl, refl, refl, refl, refl)
          (lookup-IsFound id c m h e))
        h
  add_similar-AreFound id score none m e h =
      let f : Entity → Candidate nu = λ x. local_candidate nu unicode (nu.tenths 0) score x in
      add_admitted-AreFound id f (src.get_entity id) m (λ x s p. candidate_of-IsFound _ _ _ _ x s p)
        refl h

  add_semantic-AreFound :
      (results : Scores nu unicode) (m : Candidates nu unicode)
      → AreFound m
      → AreFound (add_semantic nu unicode req src results m)
  unfolding add_semantic
  add_semantic-AreFound [] m h = h
  add_semantic-AreFound ((id, score) ∷ results) m h =
      add_semantic-AreFound results
        (add_similar nu unicode req src id score (lookup Bytes-discrete id m) m)
        (add_similar-AreFound id score (lookup Bytes-discrete id m) m refl h)

  add_exact-AreFound :
      (x : Entity) (o : Option (Candidate nu)) (m : Candidates nu unicode)
      → IsStored x
      → admits unicode req x ≡ true
      → lookup Bytes-discrete x.entity_id m ≡ o
      → AreFound m
      → AreFound (add_exact nu unicode x o m)
  unfolding add_exact
  add_exact-AreFound x none m s p e h =
      insert-AreFound x.entity_id (local_candidate nu unicode (nu.tenths 25) (nu.tenths 0) x) m
        (candidate_of-IsFound _ _ _ _ x s p) h
  add_exact-AreFound x (some c) m s p e h =
      elim (Bool-cases (nu.greater (nu.tenths 25) c.text_relevance)) [
        | inl q ↦ rw q (
            insert-AreFound x.entity_id (record c { text_relevance = nu.tenths 25 }) m
              (rescored (record c { text_relevance = nu.tenths 25 }) c
                (refl, refl, refl, refl, refl, refl) (lookup-IsFound x.entity_id c m h e))
              h)
        | inr q ↦ rw q h
      ]

  add_listed-AreFound :
      (es : List Entity) (m : Candidates nu unicode)
      → ((e : Entity) → IsListed e es → IsStored e)
      → AreFound m
      → AreFound (add_listed nu unicode req es m)
  unfolding add_listed
  add_listed-AreFound [] m k h = h
  add_listed-AreFound (x ∷ es) m k h =
      let rest = λ (m' : Candidates nu unicode) (h' : AreFound m').
        add_listed-AreFound es m' (λ e i. k e (inr i)) h' in
      elim (Bool-cases (admits unicode req x && qualifies nu unicode req x)) [
        | inl q ↦ rw q (
            rest (add_exact nu unicode x (lookup Bytes-discrete x.entity_id m) m) (
              add_exact-AreFound x (lookup Bytes-discrete x.entity_id m) m (k x (inl refl))
                (ground (arith, q)) refl h))
        | inr q ↦ rw q (rest m h)
      ]

  values-AreFound : (m : Candidates nu unicode) → AreFound m → All IsFound (values nu unicode m)
  values-AreFound [] h = tt
  values-AreFound ((id, c) ∷ m) (p, h) = (p, values-AreFound m h)

  pub search_local-AreFound : All IsFound (search_local nu unicode req src)
  unfolding search_local merge_local
  search_local-AreFound =
      let max = max_score nu unicode (nu.tenths 0) src.keyword_results in
      let found = add_keyword nu unicode req src max src.keyword_results [] in
      let similar = add_semantic nu unicode req src src.semantic_results found in
      values-AreFound (merge_local nu unicode req src) (
        add_listed-AreFound (listed nu unicode src.all_local) similar (λ e i. inr i)
          (add_semantic-AreFound src.semantic_results found
            (add_keyword-AreFound max src.keyword_results [] tt)))
