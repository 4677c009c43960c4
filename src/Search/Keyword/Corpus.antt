-- ===== src/Search/Keyword/Corpus.antt =====
-- internal/search/keyword.go: the index against the corpus that a sequence of changes describes.
use agent_dns.Search.Keyword.{
  Document, KeywordIndex, new_keyword_index, count_of, document, total_len, without_terms,
  fewer_if_some, put_document, index_document, remove_found, remove_document,
}
use agent_dns.Search.Keyword.Frequencies.{
  Terms, present, HasNoZero, count_terms-Unique, count_terms-HasNoZero, count_of-increment_all,
  count_of-decrement_all, increment_all-HasNoZero, decrement_all-HasNoZero,
}
use agent_dns.Search.Tokens.{tokenize}
use mathlib.Core.Option.{some-injective}
use agent_dns.Prelude.{
  ℕ, ◌-◌, ◌≤◌, ltb, ◌≡◌, ◌≢◌, refl, sym, ◌∙◌, List, [], ◌∷◌, Option, none, some, ite, if_pos,
  if_neg, ◌⊎◌, subst, inl, inr, Option-cases, length, Bytes, Bytes-discrete, if◌then◌else◌, arith,
}
use agent_dns.Prelude.Assoc.{
  lookup, insert, erase, lookup-insert, lookup-erase, Unique, insert-Unique,
}
use agent_dns.Prelude.Assoc.Totals.{total, weight, total-insert, total-erase, erase-Unique}

-- The calls that change an index.
pub data Change : Type 0 where
  indexed : Bytes → Bytes → Bytes → Bytes → List Bytes → Change
  removed : Bytes → Change

unfoldable apply : (ℕ → ℕ) → Change → KeywordIndex → KeywordIndex
unfolding index_document remove_document
apply unicode (Change.indexed id name summary category tags) idx =
    index_document unicode id name summary category tags idx
apply unicode (Change.removed id) idx = remove_document id idx

-- The changes, the newest first.
unfoldable pub replay : (ℕ → ℕ) → List Change → KeywordIndex
unfolding apply new_keyword_index
replay unicode [] = new_keyword_index
replay unicode (change ∷ changes) = apply unicode change (replay unicode changes)

abbrev pub Corpus : Type 0
Corpus = Bytes → Option Document

abbrev pub update : Bytes → Option Document → Corpus → Corpus
update id d corpus key = ite (Bytes-discrete id key) d (corpus key)

-- What the newest change of an identifier says of it.
unfoldable pub latest : (ℕ → ℕ) → List Change → Corpus
unfolding document
latest unicode [] = λ key. none
latest unicode (Change.indexed id name summary category tags ∷ changes) =
    update id (some (document unicode id name summary category tags)) (latest unicode changes)
latest unicode (Change.removed id ∷ changes) = update id none (latest unicode changes)

-- 1 for a document that has the term.
abbrev pub holds : Bytes → Document → ℕ
unfolding lookup
holds t d = present (lookup Bytes-discrete t d.terms)

-- The quotient that is kept as the average; 0 for an empty index.
abbrev pub average : List (Bytes × Document) → ℕ × ℕ
average [] = (0, 1)
average (d ∷ docs) = (total_len (d ∷ docs), length (d ∷ docs))

pub record IsProper (d : Document) : Type 0 where
  pub once : Unique Bytes-discrete d.terms
  pub positive : HasNoZero d.terms

-- The index holds the documents of the corpus, each once; the frequency of a term is the number of
-- documents that have it, and no term without a document has one; the count and the average are
-- those of the documents.
pub record Represents (corpus : Corpus) (idx : KeywordIndex) : Type 0 where
  pub same : (id : Bytes) → lookup Bytes-discrete id idx.docs ≡ corpus id
  pub once : Unique Bytes-discrete idx.docs
  pub proper : (id : Bytes) (d : Document) → corpus id ≡ some d → IsProper d
  pub frequency : (t : Bytes) → count_of t idx.df ≡ total Bytes-discrete (holds t) idx.docs
  pub positive : HasNoZero idx.df
  pub count : idx.doc_count ≡ length idx.docs
  pub mean : idx.avg_doc_len ≡ average idx.docs

total_one : (docs : List (Bytes × Document)) → total Bytes-discrete (λ d. 1) docs ≡ length docs
total_one [] = refl
total_one (d ∷ docs) = omega (arith, total_one docs)

new-Represents : Represents (λ key. none) new_keyword_index
unfolding new_keyword_index lookup
new-Represents = record {
  same = λ id. refl;
  once = tt;
  proper = λ id d e. ground arith;
  frequency = λ t. refl;
  positive = λ t e. ground arith;
  count = refl;
  mean = refl;
}

document-IsProper :
    (unicode : ℕ → ℕ) (id name summary category : Bytes) (tags : List Bytes)
    → IsProper (document unicode id name summary category tags)
unfolding document
document-IsProper unicode id name summary category tags =
    let terms = tokenize (document unicode id name summary category tags).text in
    record { once = count_terms-Unique terms; positive = count_terms-HasNoZero terms }

quotient-average :
    (docs : List (Bytes × Document)) (n : ℕ) (old : ℕ × ℕ)
    → n ≡ length docs
    → n ≢ 0 ⊎ (old ≡ (0, 1))
    → (if ltb 0 n then (total_len docs, n) else old) ≡ average docs
quotient-average [] n old e h = ground arith
quotient-average (d ∷ docs) n old e h = ground arith

update-IsProper :
    (id key : Bytes) (old : Option Document) (corpus : Corpus) (d : Document)
    → (old ≡ some d → IsProper d)
    → (corpus key ≡ some d → IsProper d)
    → update id old corpus key ≡ some d
    → IsProper d
update-IsProper id key old corpus d h h' e = elim (Bytes-discrete id key) [
  | yes p ↦ h (sym (if_pos (Bytes-discrete id key) p old (corpus key)) ∙ e)
  | no n ↦ h' (sym (if_neg (Bytes-discrete id key) n old (corpus key)) ∙ e)
]

count_of-without_terms :
    (t : Bytes) (old : Option Document) (df : Terms)
    → ((d : Document) → old ≡ some d → IsProper d)
    → count_of t (without_terms old df) ≡ count_of t df - weight Bytes-discrete (holds t) old
unfolding without_terms
count_of-without_terms t none df h = omega arith
count_of-without_terms t (some d) df h = count_of-decrement_all t d.terms df (h d refl).once

without_terms-HasNoZero :
    (old : Option Document) (df : Terms) → HasNoZero df → HasNoZero (without_terms old df)
unfolding without_terms
without_terms-HasNoZero none df h = h
without_terms-HasNoZero (some d) df h = decrement_all-HasNoZero d.terms df h

fewer_if_some-sub :
    (old : Option Document) (n : ℕ) → fewer_if_some old n ≡ n - weight Bytes-discrete (λ d. 1) old
fewer_if_some-sub none n = omega arith
fewer_if_some-sub (some d) n = refl

pub weight-le_total :
    (id : Bytes) (docs : List (Bytes × Document)) (w : Document → ℕ)
    → weight Bytes-discrete w (lookup Bytes-discrete id docs) ≤ total Bytes-discrete w docs
unfolding lookup
weight-le_total id [] w = omega arith
weight-le_total id ((j, x) ∷ docs) w = ground (arith, weight-le_total id docs w)

module _ (corpus : Corpus) (idx : KeywordIndex) (r : Represents corpus idx) where
  held-IsProper :
      (id : Bytes) (d : Document) → lookup Bytes-discrete id idx.docs ≡ some d → IsProper d
  held-IsProper id d e = r.proper id d (sym (r.same id) ∙ e)

  module _ (doc : Document) (proper_doc : IsProper doc) where
    frequency-put :
        (t : Bytes)
        → count_of t (put_document doc idx).df
          ≡ total Bytes-discrete (holds t) (put_document doc idx).docs
    unfolding put_document
    frequency-put t =
        let old = lookup Bytes-discrete doc.id idx.docs in
        ground (
          arith,
          r.frequency t,
          count_of-increment_all t doc.terms (without_terms old idx.df) proper_doc.once,
          count_of-without_terms t old idx.df (held-IsProper doc.id),
          total-insert Bytes-discrete (holds t) doc.id doc idx.docs,
          weight-le_total doc.id idx.docs (holds t),
        )

    count-put : (put_document doc idx).doc_count ≡ length (put_document doc idx).docs
    unfolding put_document
    count-put =
        let one : Document → ℕ = λ d. 1 in
        ground (
          arith,
          r.count,
          fewer_if_some-sub (lookup Bytes-discrete doc.id idx.docs) idx.doc_count,
          total-insert Bytes-discrete one doc.id doc idx.docs,
          weight-le_total doc.id idx.docs one,
          total_one (insert Bytes-discrete doc.id doc idx.docs),
          total_one idx.docs,
        )

    pub put_document-Represents :
        Represents (update doc.id (some doc) corpus) (put_document doc idx)
    unfolding put_document
    put_document-Represents = record {
      same = λ id. ground (arith, lookup-insert Bytes-discrete doc.id id doc idx.docs, r.same id);
      once = insert-Unique Bytes-discrete doc.id doc idx.docs r.once;
      proper = λ id d.
          update-IsProper doc.id id (some doc) corpus d
            (λ e. subst IsProper (some-injective _ _ e) proper_doc) (r.proper id d);
      frequency = frequency-put;
      positive =
          increment_all-HasNoZero doc.terms
            (without_terms (lookup Bytes-discrete doc.id idx.docs) idx.df)
            (without_terms-HasNoZero (lookup Bytes-discrete doc.id idx.docs) idx.df r.positive);
      count = count-put;
      mean =
          quotient-average (insert Bytes-discrete doc.id doc idx.docs) _ idx.avg_doc_len count-put
            (inl (omega arith));
    }

  unchanged :
      (id : Bytes)
      → lookup Bytes-discrete id idx.docs ≡ none
      → Represents (update id none corpus) idx
  unchanged id e = record {
    once = r.once;
    frequency = r.frequency;
    positive = r.positive;
    count = r.count;
    mean = r.mean;
    same = λ key. ground (arith, r.same key, e);
    proper = λ key x. update-IsProper id key none corpus x (λ e. ground arith) (r.proper key x);
  }

  module _ (id : Bytes) (d : Document) (found : lookup Bytes-discrete id idx.docs ≡ some d) where
    frequency-removed :
        (t : Bytes)
        → count_of t (remove_found id (some d) idx).df
          ≡ total Bytes-discrete (holds t) (remove_found id (some d) idx).docs
    unfolding remove_found
    frequency-removed t = ground (
      arith,
      r.frequency t,
      found,
      count_of-decrement_all t d.terms idx.df (held-IsProper id d found).once,
      total-erase Bytes-discrete (holds t) id idx.docs r.once,
    )

    count-removed :
        (remove_found id (some d) idx).doc_count ≡ length (remove_found id (some d) idx).docs
    unfolding remove_found
    count-removed =
        let one : Document → ℕ = λ x. 1 in
        ground (
          arith,
          r.count,
          found,
          total-erase Bytes-discrete one id idx.docs r.once,
          total_one (erase Bytes-discrete id idx.docs),
          total_one idx.docs,
        )

    removed-Represents : Represents (update id none corpus) (remove_found id (some d) idx)
    unfolding remove_found
    removed-Represents = record {
      same = λ key. ground (arith, lookup-erase Bytes-discrete id key idx.docs, r.same key);
      once = erase-Unique Bytes-discrete id idx.docs r.once;
      proper = λ key x. update-IsProper id key none corpus x (λ e. ground arith) (r.proper key x);
      frequency = frequency-removed;
      positive = decrement_all-HasNoZero d.terms idx.df r.positive;
      count = count-removed;
      mean = quotient-average (erase Bytes-discrete id idx.docs) _ (0, 1) count-removed (inr refl);
    }

  pub remove_document-Represents :
      (id : Bytes) → Represents (update id none corpus) (remove_document id idx)
  unfolding remove_document
  remove_document-Represents id = elim (Option-cases (lookup Bytes-discrete id idx.docs)) [
    | inl e ↦ rw e (unchanged id e)
    | inr (d, e) ↦ rw e (removed-Represents id d e)
  ]

-- Whatever documents are indexed, replaced and removed, in whatever order, the index is that of the
-- documents whose newest change is an indexing.
pub replay-Represents :
    (unicode : ℕ → ℕ) (changes : List Change)
    → Represents (latest unicode changes) (replay unicode changes)
unfolding replay latest apply index_document remove_document
replay-Represents unicode [] = new-Represents
replay-Represents unicode (Change.indexed id name summary category tags ∷ changes) =
    put_document-Represents (latest unicode changes) (replay unicode changes)
      (replay-Represents unicode changes) (document unicode id name summary category tags)
      (document-IsProper unicode id name summary category tags)
replay-Represents unicode (Change.removed id ∷ changes) =
    remove_document-Represents (latest unicode changes) (replay unicode changes)
      (replay-Represents unicode changes) id
