-- ===== src/Search/Response/Distinct.antt =====
-- internal/search/engine.go, internal/ranking/ranking.go: no entity stands twice in a ranking.
use agent_dns.Search.Engine.{is_equal}
use agent_dns.Search.Response.{SearchConfig, Answers, gathered, of_type, at_least, ranked}
use agent_dns.Ranking.{
  Numbers, Candidate, freshened, with_score, higher_raw, rank_weighted, rank_rrf, rank, is_in,
  dedup_from, deduplicate,
}
use agent_dns.Prelude.{
  ◌≡◌, ◌≢◌, refl, sym, ap, ◌∙◌, Bool, true, false, Bool-cases, List, [], ◌∷◌, inl, inr, if_pos,
  if_neg, map, Bytes, Bytes-discrete, codes, All, All-imp, if◌then◌else◌, arith,
}
use agent_dns.Prelude.Sort.{insert, sort, insert-All, sort-All}

module _ (nu : Numbers) where
  -- No candidate has the identifier.
  abbrev pub Lacks : Bytes → List (Candidate nu) → Type 0
  Lacks id cs = All (λ (c : Candidate nu). id ≢ c.entity_id) cs

  abbrev pub Distinct : List (Candidate nu) → Type 0
  Distinct [] = Unit
  Distinct (c ∷ cs) = Lacks c.entity_id cs × Distinct cs

  true-ne-false : true ≢ false
  true-ne-false e = absurd (cc)

  dedup_from-Lacks :
      (id : Bytes) (seen : List Bytes) (cs : List (Candidate nu))
      → is_in nu id seen ≡ true
      → Lacks id (dedup_from nu seen cs)
  unfolding dedup_from
  dedup_from-Lacks id seen [] h = tt
  dedup_from-Lacks id seen (c ∷ cs) h = elim (Bool-cases (is_in nu c.entity_id seen)) [
    | inl e ↦ rw e (dedup_from-Lacks id seen cs h)
    | inr e ↦ rw e (
      (λ p. true-ne-false (sym h ∙ ap (λ x. is_in nu x seen) p ∙ e)),
      dedup_from-Lacks id (c.entity_id ∷ seen) cs (ground (arith, h)),
    )
  ]

  dedup_from-Distinct :
      (seen : List Bytes) (cs : List (Candidate nu)) → Distinct (dedup_from nu seen cs)
  unfolding dedup_from
  dedup_from-Distinct seen [] = tt
  dedup_from-Distinct seen (c ∷ cs) = elim (Bool-cases (is_in nu c.entity_id seen)) [
    | inl e ↦ rw e (dedup_from-Distinct seen cs)
    | inr e ↦ rw e (
      dedup_from-Lacks c.entity_id (c.entity_id ∷ seen) cs
          (if_pos (Bytes-discrete c.entity_id c.entity_id) refl true (is_in nu c.entity_id seen)),
      dedup_from-Distinct (c.entity_id ∷ seen) cs,
    )
  ]

  module _ (f : Candidate nu → Candidate nu)
      (same : (c : Candidate nu) → (f c).entity_id ≡ c.entity_id) where
    map-Lacks : (id : Bytes) (cs : List (Candidate nu)) → Lacks id cs → Lacks id (map f cs)
    map-Lacks id [] h = tt
    map-Lacks id (c ∷ cs) (p, h) = ((λ e. p (e ∙ same c)), map-Lacks id cs h)

    map-Distinct : (cs : List (Candidate nu)) → Distinct cs → Distinct (map f cs)
    map-Distinct [] h = tt
    map-Distinct (c ∷ cs) (p, h) = (
      map-Lacks (f c).entity_id cs (All-imp (λ d q e. q (sym (same c) ∙ e)) cs p),
      map-Distinct cs h,
    )

  module _ (lt : Candidate nu → Candidate nu → Bool) where
    insert-Distinct :
        (c : Candidate nu) (cs : List (Candidate nu))
        → Lacks c.entity_id cs
        → Distinct cs
        → Distinct (insert lt c cs)
    unfolding insert
    insert-Distinct c [] h d = (tt, tt)
    insert-Distinct c (x ∷ cs) (p, h) (q, d) = elim (Bool-cases (lt x c)) [
      | inl e ↦ rw e (
        insert-All lt (λ (y : Candidate nu). x.entity_id ≢ y.entity_id) c cs (λ r. p (sym r)) q,
        insert-Distinct c cs h d,
      )
      | inr e ↦ rw e ((p, h), (q, d))
    ]

    sort-Distinct : (cs : List (Candidate nu)) → Distinct cs → Distinct (sort lt cs)
    unfolding sort
    sort-Distinct [] d = tt
    sort-Distinct (c ∷ cs) (q, d) =
        insert-Distinct c (sort lt cs)
          (sort-All lt (λ (y : Candidate nu). c.entity_id ≢ y.entity_id) cs q) (sort-Distinct cs d)

  module _ (cfg : SearchConfig nu) (a : Answers nu) where
    rank-Distinct :
        (cs : List (Candidate nu))
        → Distinct cs
        → Distinct (rank nu a.compute_freshness cfg.ranking cs)
    unfolding rank rank_weighted rank_rrf
    rank-Distinct cs d = elim (Bytes-discrete cfg.ranking.method (codes "rrf")) [
      | yes p ↦
          rw (if_pos (Bytes-discrete cfg.ranking.method (codes "rrf")) p)
            (sort-Distinct _ _ (map-Distinct _ (λ c. refl) cs d))
      | no n ↦ rw (if_neg (Bytes-discrete cfg.ranking.method (codes "rrf")) n) (
          map-Distinct (with_score nu cfg.ranking) (λ c. refl) _
            (sort-Distinct (higher_raw nu cfg.ranking) _
              (map-Distinct (freshened nu a.compute_freshness) (λ c. refl) cs d)))
    ]

    at_least-Lacks :
        (id : Bytes) (cs : List (Candidate nu))
        → Lacks id cs
        → Lacks id (at_least nu cfg.min_score cs)
    unfolding at_least
    at_least-Lacks id [] h = tt
    at_least-Lacks id (c ∷ cs) (p, h) = elim (Bool-cases (nu.greater cfg.min_score c.final_score)) [
      | inl e ↦ rw e (at_least-Lacks id cs h)
      | inr e ↦ rw e (p, at_least-Lacks id cs h)
    ]

    at_least-Distinct :
        (cs : List (Candidate nu)) → Distinct cs → Distinct (at_least nu cfg.min_score cs)
    unfolding at_least
    at_least-Distinct [] h = tt
    at_least-Distinct (c ∷ cs) (p, h) = elim (Bool-cases (nu.greater cfg.min_score c.final_score)) [
      | inl e ↦ rw e (at_least-Distinct cs h)
      | inr e ↦ rw e (at_least-Lacks c.entity_id cs p, at_least-Distinct cs h)
    ]

    -- No two candidates of a ranking are of one entity.
    pub ranked-Distinct :
        (entity_type : Bytes) (asks : Bool) → Distinct (ranked nu cfg entity_type asks a)
    unfolding ranked deduplicate
    ranked-Distinct entity_type asks =
        let all = gathered nu asks a in
        let typed = if is_equal entity_type [] then all else of_type nu entity_type all in
        let ordered = rank nu a.compute_freshness cfg.ranking (deduplicate nu typed) in
        let d : Distinct ordered =
          rank-Distinct (deduplicate nu typed) (dedup_from-Distinct [] typed) in
        elim (Bool-cases (nu.greater cfg.min_score (nu.tenths 0))) [
          | inl e ↦ rw e (at_least-Distinct ordered d)
          | inr e ↦ rw e d
        ]
