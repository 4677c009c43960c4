-- ===== src/Search/Keyword.antt =====
-- internal/search/keyword.go: the keyword index. Scores are floating-point numbers: their type, their sum,
-- their order and the formula that gives one term's score are parameters. The average length of a
-- document is the quotient of the two numbers it is computed from.
pub mod Frequencies
pub mod Corpus
pub mod Hits
use agent_dns.Search.Tokens.{tokenize, to_lower}
use agent_dns.Prelude.{
  ℕ, zero, suc, ◌+◌, ◌-◌, Bool, List, [], ◌∷◌, ◌++◌, Option, none, some, Bytes, Bytes-discrete, map,
  length, take, ltb, leb, ◌==◌, if◌then◌else◌, ◌&&◌,
}
use agent_dns.Prelude.Assoc.{lookup, insert, erase}
use agent_dns.Prelude.Sort.{sort}

pub record Document : Type 0 where
  pub id : Bytes
  pub name : Bytes
  pub summary : Bytes
  pub tags : List Bytes
  pub category : Bytes
  pub text : Bytes
  pub terms : List (Bytes × ℕ)
  pub doc_length : ℕ

pub record KeywordIndex : Type 0 where
  pub docs : List (Bytes × Document)
  pub df : List (Bytes × ℕ)
  pub avg_doc_len : ℕ × ℕ
  pub doc_count : ℕ

unfoldable pub new_keyword_index : KeywordIndex
new_keyword_index = record { docs = []; df = []; avg_doc_len = (0, 1); doc_count = 0 }

-- A read of a missing key gives 0.
abbrev pub or_zero : Option ℕ → ℕ
or_zero none = 0
or_zero (some n) = n

abbrev pub count_of : Bytes → List (Bytes × ℕ) → ℕ
count_of term m = or_zero (lookup Bytes-discrete term m)

-- `m[term]++`
unfoldable pub increment : Bytes → List (Bytes × ℕ) → List (Bytes × ℕ)
unfolding lookup insert
increment term m = insert Bytes-discrete term (suc (count_of term m)) m

-- `df[term]--; if df[term] <= 0 { delete(df, term) }`
unfoldable pub decrement : Bytes → List (Bytes × ℕ) → List (Bytes × ℕ)
unfolding lookup insert erase
decrement term m =
    let n = count_of term m - 1 in
    if n == 0 then erase Bytes-discrete term m else insert Bytes-discrete term n m

-- `tf[term]++` for each term, from the last.
unfoldable pub count_terms : List Bytes → List (Bytes × ℕ)
unfolding increment
count_terms [] = []
count_terms (term ∷ terms) = increment term (count_terms terms)

unfoldable pub increment_all : List (Bytes × ℕ) → List (Bytes × ℕ) → List (Bytes × ℕ)
unfolding increment
increment_all [] df = df
increment_all ((term, n) ∷ tf) df = increment_all tf (increment term df)

unfoldable pub decrement_all : List (Bytes × ℕ) → List (Bytes × ℕ) → List (Bytes × ℕ)
unfolding decrement
decrement_all [] df = df
decrement_all ((term, n) ∷ tf) df = decrement_all tf (decrement term df)

-- `strings.Join(parts, " ")`
unfoldable pub join : List Bytes → Bytes
join [] = []
join (part ∷ []) = part
join (part ∷ next ∷ parts) = part ++ b' ' ∷ join (next ∷ parts)

unfoldable pub document : (ℕ → ℕ) → Bytes → Bytes → Bytes → Bytes → List Bytes → Document
unfolding tokenize to_lower count_terms join
document unicode id name summary category tags =
    let lower = to_lower unicode in
    let text = join (lower name ∷ lower summary ∷ lower category ∷ map lower tags) in
    let terms = tokenize text in
    record {
      id = id;
      name = name;
      summary = summary;
      tags = tags;
      category = category;
      text = text;
      terms = count_terms terms;
      doc_length = length terms;
    }

unfoldable pub total_len : List (Bytes × Document) → ℕ
total_len [] = 0
total_len ((id, d) ∷ docs) = d.doc_length + total_len docs

-- The frequencies without a document that the index may hold.
abbrev pub without_terms : Option Document → List (Bytes × ℕ) → List (Bytes × ℕ)
unfolding decrement_all
without_terms none df = df
without_terms (some d) df = decrement_all d.terms df

abbrev pub fewer_if_some : Option Document → ℕ → ℕ
fewer_if_some none n = n
fewer_if_some (some d) n = n - 1

-- `IndexDocument` on the document that it builds.
unfoldable pub put_document : Document → KeywordIndex → KeywordIndex
unfolding lookup insert decrement_all increment_all total_len
put_document doc idx =
    let old_doc = lookup Bytes-discrete doc.id idx.docs in
    let docs = insert Bytes-discrete doc.id doc idx.docs in
    let doc_count = suc (fewer_if_some old_doc idx.doc_count) in
    record {
      docs = docs;
      df = increment_all doc.terms (without_terms old_doc idx.df);
      avg_doc_len = if ltb 0 doc_count then (total_len docs, doc_count) else idx.avg_doc_len;
      doc_count = doc_count;
    }

unfoldable pub index_document :
    (ℕ → ℕ) → Bytes → Bytes → Bytes → Bytes → List Bytes → KeywordIndex → KeywordIndex
unfolding document put_document
index_document unicode id name summary category tags idx =
    put_document (document unicode id name summary category tags) idx

abbrev pub remove_found : Bytes → Option Document → KeywordIndex → KeywordIndex
unfolding erase decrement_all total_len
remove_found id none idx = idx
remove_found id (some doc) idx =
    let docs = erase Bytes-discrete id idx.docs in
    let doc_count = idx.doc_count - 1 in
    record {
      docs = docs;
      df = decrement_all doc.terms idx.df;
      avg_doc_len = if ltb 0 doc_count then (total_len docs, doc_count) else (0, 1);
      doc_count = doc_count;
    }

unfoldable pub remove_document : Bytes → KeywordIndex → KeywordIndex
unfolding lookup remove_found
remove_document id idx = remove_found id (lookup Bytes-discrete id idx.docs) idx

-- Arithmetic on scores: `idf_of N df` is the weight of a term, `term_score idf tf len avg` a term's
-- score in a document.
pub record Scoring : Type 1 where
  pub Score : Type 0
  pub nil : Score
  pub plus : Score → Score → Score
  pub greater : Score → Score → Bool
  pub idf_of : ℕ → ℕ → Score
  pub term_score : Score → ℕ → ℕ → ℕ × ℕ → Score

module _ (sc : Scoring) where
  abbrev pub score_or_nil : Option sc.Score → sc.Score
  score_or_nil none = sc.nil
  score_or_nil (some s) = s

  -- The loop over the documents for one term that has a frequency.
  unfoldable pub score_docs :
      Bytes
      → sc.Score
      → ℕ × ℕ
      → List (Bytes × Document)
      → List (Bytes × sc.Score)
      → List (Bytes × sc.Score)
  unfolding lookup insert
  score_docs q_term idf avg [] scores = scores
  score_docs q_term idf avg ((id, doc) ∷ docs) scores =
      let term_freq = count_of q_term doc.terms in
      let old = score_or_nil (lookup Bytes-discrete id scores) in
      let new = sc.plus old (sc.term_score idf term_freq doc.doc_length avg) in
      score_docs q_term idf avg docs
        (if term_freq == 0 then scores else insert Bytes-discrete id new scores)

  abbrev pub score_found :
      Option ℕ → Bytes → KeywordIndex → List (Bytes × sc.Score) → List (Bytes × sc.Score)
  unfolding score_docs
  score_found none q_term idx scores = scores
  score_found (some doc_freq) q_term idx scores =
      score_docs q_term (sc.idf_of idx.doc_count doc_freq) idx.avg_doc_len idx.docs scores

  unfoldable pub score_terms :
      List Bytes → KeywordIndex → List (Bytes × sc.Score) → List (Bytes × sc.Score)
  unfolding lookup score_found
  score_terms [] idx scores = scores
  score_terms (q_term ∷ q_terms) idx scores =
      score_terms q_terms idx (score_found (lookup Bytes-discrete q_term idx.df) q_term idx scores)

  -- `results[i].Score > results[j].Score`
  abbrev pub higher : Bytes × sc.Score → Bytes × sc.Score → Bool
  higher (id, s) (id', s') = sc.greater s s'

  unfoldable pub limit : ℕ → List (Bytes × sc.Score) → List (Bytes × sc.Score)
  limit max_results results =
      if ltb 0 max_results && ltb max_results (length results)
      then take max_results results
      else results

  unfoldable pub search : (ℕ → ℕ) → Bytes → ℕ → KeywordIndex → List (Bytes × sc.Score)
  unfolding tokenize to_lower score_terms sort limit
  search unicode query max_results idx =
      if idx.doc_count == 0
      then []
      else limit max_results (sort higher (score_terms (tokenize (to_lower unicode query)) idx []))
