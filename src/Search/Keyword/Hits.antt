-- ===== src/Search/Keyword/Hits.antt =====
-- internal/search/keyword.go: which documents `Search` returns, and in which order.
use agent_dns.Search.Keyword.{
  Document, KeywordIndex, Scoring, count_of, score_docs, score_found, score_terms, score_or_nil,
  higher, limit, search,
}
use agent_dns.Search.Keyword.Corpus.{
  Change, Corpus, Represents, latest, replay, replay-Represents, holds, weight-le_total,
}
use agent_dns.Search.Tokens.{tokenize, to_lower}
use agent_dns.Prelude.{
  ℕ, suc, min, ◌==◌, ltb, ◌≡◌, refl, Bool, true, false, Bool-cases, List, [], ◌∷◌, ◌++◌, ◌||◌,
  Option, none, some, inl, inr, Option-cases, length, take, drop, take_of_length-le, All,
  length-take, take-append-drop, Bytes, Bytes-discrete, if◌then◌else◌, arith,
}
use agent_dns.Prelude.Assoc
use agent_dns.Prelude.Assoc.{lookup, lookup-insert, Unique}
use agent_dns.Prelude.Sort.{insert, sort, IsSorted, sort-IsSorted}

abbrev pub is_some {ℓ} : {A : Type ℓ} → Option A → Bool
is_some none = false
is_some (some a) = true

abbrev pub has_term : Bytes → Option Document → Bool
has_term t none = false
has_term t (some d) = if count_of t d.terms == 0 then false else true

-- The document has one of the terms.
abbrev pub matches : List Bytes → Option Document → Bool
matches [] d = false
matches (t ∷ ts) d = has_term t d || matches ts d

module _ (sc : Scoring) where
  hit-score_docs :
      (q : Bytes) (idf : sc.Score) (avg : ℕ × ℕ) (id : Bytes) (docs : List (Bytes × Document))
      (scores : List (Bytes × sc.Score))
      → Unique Bytes-discrete docs
      → is_some (lookup Bytes-discrete id (score_docs sc q idf avg docs scores))
        ≡ is_some (lookup Bytes-discrete id scores) || has_term q (lookup Bytes-discrete id docs)
  unfolding score_docs lookup
  hit-score_docs q idf avg id [] scores u = ground arith
  hit-score_docs q idf avg id ((j, doc) ∷ docs) scores (new, u) =
      let freq = count_of q doc.terms in
      let old = score_or_nil sc (lookup Bytes-discrete j scores) in
      let v = sc.plus old (sc.term_score idf freq doc.doc_length avg) in
      let next = if freq == 0 then scores else Assoc.insert Bytes-discrete j v scores in
      ground (
        arith,
        hit-score_docs q idf avg id docs next u,
        lookup-insert Bytes-discrete j id v scores,
        new,
      )

  -- A term with no frequency stands in no document.
  hit-score_found :
      (q id : Bytes) (idx : KeywordIndex) (corpus : Corpus) (scores : List (Bytes × sc.Score))
      → Represents corpus idx
      → is_some
          (lookup Bytes-discrete id (score_found sc (lookup Bytes-discrete q idx.df) q idx scores))
        ≡ is_some (lookup Bytes-discrete id scores) || has_term q (corpus id)
  unfolding score_found
  hit-score_found q id idx corpus scores r = elim (Option-cases (lookup Bytes-discrete q idx.df)) [
    | inl e ↦ ground (arith, e, r.frequency q, r.same id, weight-le_total id idx.docs (holds q))
    | inr (n, e) ↦ ground (
      arith,
      e,
      r.same id,
      hit-score_docs q (sc.idf_of idx.doc_count n) idx.avg_doc_len id idx.docs scores r.once,
    )
  ]

  hit-score_terms :
      (qs : List Bytes) (id : Bytes) (idx : KeywordIndex) (corpus : Corpus)
      (scores : List (Bytes × sc.Score))
      → Represents corpus idx
      → is_some (lookup Bytes-discrete id (score_terms sc qs idx scores))
        ≡ is_some (lookup Bytes-discrete id scores) || matches qs (corpus id)
  unfolding score_terms
  hit-score_terms [] id idx corpus scores r = ground arith
  hit-score_terms (q ∷ qs) id idx corpus scores r =
      let found = score_found sc (lookup Bytes-discrete q idx.df) q idx scores in
      ground
        (arith, hit-score_terms qs id idx corpus found r, hit-score_found q id idx corpus scores r)

  hit-insert :
      (id j : Bytes) (s : sc.Score) (l : List (Bytes × sc.Score))
      → is_some (lookup Bytes-discrete id (insert (higher sc) (j, s) l))
        ≡ is_some (lookup Bytes-discrete id ((j, s) ∷ l))
  unfolding insert lookup
  hit-insert id j s [] = refl
  hit-insert id j s ((k, x) ∷ l) = ground (arith, hit-insert id j s l)

  hit-sort :
      (id : Bytes) (l : List (Bytes × sc.Score))
      → is_some (lookup Bytes-discrete id (sort (higher sc) l))
        ≡ is_some (lookup Bytes-discrete id l)
  unfolding sort lookup
  hit-sort id [] = refl
  hit-sort id ((j, s) ∷ l) = ground (arith, hit-insert id j s (sort (higher sc) l), hit-sort id l)

  nothing_matches : (qs : List Bytes) → matches qs none ≡ false
  nothing_matches [] = refl
  nothing_matches (q ∷ qs) = nothing_matches qs

  absent_if_empty :
      (id : Bytes) (docs : List (Bytes × Document))
      → length docs ≡ 0
      → lookup Bytes-discrete id docs ≡ none
  unfolding lookup
  absent_if_empty id [] e = refl
  absent_if_empty id (d ∷ docs) e = absurd (omega arith)

  no_documents :
      (qs : List Bytes) (id : Bytes) (idx : KeywordIndex) (corpus : Corpus)
      → Represents corpus idx
      → idx.doc_count ≡ 0
      → matches qs (corpus id) ≡ false
  no_documents qs id idx corpus r e =
      ground (arith, r.count, r.same id, absent_if_empty id idx.docs, nothing_matches qs)

  -- Without a limit, `Search` returns exactly the documents that have a term of the query, whatever
  -- documents were indexed, replaced and removed before.
  pub search-replay :
      (unicode : ℕ → ℕ) (changes : List Change) (query id : Bytes)
      → is_some (lookup Bytes-discrete id (search sc unicode query 0 (replay unicode changes)))
        ≡ matches (tokenize (to_lower unicode query)) (latest unicode changes id)
  unfolding search limit
  search-replay unicode changes query id =
      let idx = replay unicode changes in
      let qs = tokenize (to_lower unicode query) in
      let r = replay-Represents unicode changes in
      ground (
        arith,
        no_documents qs id idx (latest unicode changes) r,
        hit-sort id (score_terms sc qs idx []),
        hit-score_terms qs id idx (latest unicode changes) [] r,
      )

  limit-take : (n : ℕ) (l : List (Bytes × sc.Score)) → limit sc (suc n) l ≡ take (suc n) l
  unfolding limit
  limit-take n l = ground (arith, take_of_length-le (suc n) l)

  all_any : (l : List (Bytes × sc.Score)) → All (λ r. Unit {0}) l
  all_any [] = tt
  all_any (r ∷ l) = (tt, all_any l)

  module _ (place : sc.Score → ℕ)
      (agree : (s s' : sc.Score) → sc.greater s s' ≡ ltb (place s) (place s')) where
    -- Where scores have an order, `Search` returns the results with the best first, and with a limit
    -- the first of these, as many as the limit says, or all where there are fewer: what it leaves
    -- out follows what it returns.
    pub search-IsSorted :
        (unicode : ℕ → ℕ) (query : Bytes) (n : ℕ) (idx : KeywordIndex)
        → IsSorted (λ (r : Bytes × sc.Score). place r.1) (search sc unicode query 0 idx)
          × (length (search sc unicode query (suc n) idx)
              ≡ min (suc n) (length (search sc unicode query 0 idx)))
          × ((rest : List (Bytes × sc.Score)) × (search sc unicode query (suc n) idx ++ rest
                ≡ search sc unicode query 0 idx))
    unfolding search
    search-IsSorted unicode query n idx = elim (Bool-cases (idx.doc_count == 0)) [
      | inl e ↦ rw e (tt, omega arith, ([], refl))
      | inr e ↦
          let all = sort (higher sc) (score_terms sc (tokenize (to_lower unicode query)) idx []) in
          let scored = score_terms sc (tokenize (to_lower unicode query)) idx [] in
          rw (e, limit-take n all)
            (
              sort-IsSorted (higher sc) (λ (r : Bytes × sc.Score). place r.1) (λ r. Unit {0})
                  (λ x y p q. agree x.1 y.1) scored (all_any scored),
              length-take (suc n) all,
              (drop (suc n) all, take-append-drop (suc n) all),
            )
    ]
