-- ===== src/Tests/Searches.antt =====
-- Runs on the keyword index.
use agent_dns.Search.Keyword.{Scoring, search}
use agent_dns.Search.Keyword.Corpus.{Change, replay, latest, Represents, replay-Represents}
use agent_dns.Search.Keyword.Hits.{is_some, matches, search-replay}
use agent_dns.Search.Tokens.{tokenize, to_lower, terms_from, flush, fields_func, kept_parts}
use agent_dns.Prelude.{
  ℕ, ◌+◌, ◌-◌, ◌*◌, ◌≡◌, refl, ltb, List, [], ◌∷◌, Bytes-discrete, ℕ_discrete, codes,
}
use agent_dns.Prelude.Assoc.{lookup}

-- No rune outside of ASCII has another case.
abbrev ascii : ℕ → ℕ
ascii r = r

abbrev rank : ℕ → ℕ
rank s = 1000 - s

-- A term's score is how often it stands in the document.
abbrev counting : Scoring
counting = record {
  Score = ℕ;
  nil = 0;
  plus = λ s t. s + t;
  greater = λ s t. ltb (rank s) (rank t);
  idf_of = λ n df. 1;
  term_score = λ idf tf len avg. idf * tf;
}

-- The second document is replaced, the third removed; the newest change is the first.
abbrev changes : List Change
changes =
    Change.removed (codes "c")
    ∷ Change.indexed (codes "b") (codes "Weather") (codes "forecast") (codes "data") []
    ∷ Change.indexed (codes "c") (codes "Job-Scraper") [] [] []
    ∷ Change.indexed (codes "b") (codes "job") [] [] []
    ∷ Change.indexed (codes "a") (codes "job-service") (codes "finds a JOB") [] (codes "work" ∷ [])
    ∷ []

replay-Represents_example : Represents (latest ascii changes) (replay ascii changes)
replay-Represents_example = replay-Represents ascii changes

search-replay_example :
    is_some (
      lookup Bytes-discrete
        (codes "a")
        (search counting ascii (codes "a Job") 0 (replay ascii changes)))
    ≡ matches (tokenize (to_lower ascii (codes "a Job"))) (latest ascii changes (codes "a"))
search-replay_example = search-replay counting ascii changes (codes "a Job") (codes "a")

tokenize_compound :
    tokenize (codes "job-scrapper-service x")
    ≡ codes "job-scrapper-service" ∷ codes "job" ∷ codes "scrapper" ∷ codes "service" ∷ []
unfolding tokenize terms_from flush fields_func kept_parts Bytes-discrete ℕ_discrete
tokenize_compound = refl
