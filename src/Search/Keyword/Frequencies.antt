-- ===== src/Search/Keyword/Frequencies.antt =====
-- internal/search/keyword.go: what the loops over a document's terms do to a map of counts.
use agent_dns.Search.Keyword.{
  count_of, increment, decrement, count_terms, increment_all, decrement_all,
}
use agent_dns.Prelude.{
  ℕ, suc, ◌+◌, ◌-◌, ◌≡◌, ◌≢◌, List, [], ◌∷◌, Option, none, some, ite, Bytes, Bytes-discrete, arith,
}
use agent_dns.Prelude.Assoc.{lookup, lookup-insert, lookup-erase, Unique, insert-Unique}

abbrev pub Terms : Type 0
Terms = List (Bytes × ℕ)

abbrev pub present : Option ℕ → ℕ
present none = 0
present (some n) = 1

-- No stored count is 0.
abbrev pub HasNoZero : Terms → Type 0
HasNoZero m = (t : Bytes) → lookup Bytes-discrete t m ≢ some 0

count_of-increment :
    (term t : Bytes) (m : Terms)
    → count_of t (increment term m)
      ≡ ite (Bytes-discrete term t) (suc (count_of t m)) (count_of t m)
unfolding increment
count_of-increment term t m =
    ground (arith, lookup-insert Bytes-discrete term t (suc (count_of term m)) m)

increment-HasNoZero : (term : Bytes) (m : Terms) → HasNoZero m → HasNoZero (increment term m)
unfolding increment
increment-HasNoZero term m h t =
    ground (arith, lookup-insert Bytes-discrete term t (suc (count_of term m)) m, h t)

count_of-decrement :
    (term t : Bytes) (m : Terms)
    → count_of t (decrement term m) ≡ ite (Bytes-discrete term t) (count_of t m - 1) (count_of t m)
unfolding decrement
count_of-decrement term t m = ground (
  arith,
  lookup-insert Bytes-discrete term t (count_of term m - 1) m,
  lookup-erase Bytes-discrete term t m,
)

decrement-HasNoZero : (term : Bytes) (m : Terms) → HasNoZero m → HasNoZero (decrement term m)
unfolding decrement
decrement-HasNoZero term m h t = ground (
  arith,
  lookup-insert Bytes-discrete term t (count_of term m - 1) m,
  lookup-erase Bytes-discrete term t m,
  h t,
)

-- Each term stands once, with a count that is not 0.
pub count_terms-Unique : (terms : List Bytes) → Unique Bytes-discrete (count_terms terms)
unfolding count_terms increment
count_terms-Unique [] = tt
count_terms-Unique (term ∷ terms) =
    insert-Unique Bytes-discrete term (suc (count_of term (count_terms terms))) (count_terms terms)
      (count_terms-Unique terms)

pub count_terms-HasNoZero : (terms : List Bytes) → HasNoZero (count_terms terms)
unfolding count_terms lookup
count_terms-HasNoZero [] t = λ e. cc
count_terms-HasNoZero (term ∷ terms) t =
    increment-HasNoZero term (count_terms terms) (count_terms-HasNoZero terms) t

pub count_of-increment_all :
    (t : Bytes) (tf df : Terms)
    → Unique Bytes-discrete tf
    → count_of t (increment_all tf df) ≡ present (lookup Bytes-discrete t tf) + count_of t df
unfolding increment_all lookup
count_of-increment_all t [] df u = omega arith
count_of-increment_all t ((term, n) ∷ tf) df (new, u) =
    ground (arith, count_of-increment_all t tf (increment term df) u, count_of-increment term t df)

pub count_of-decrement_all :
    (t : Bytes) (tf df : Terms)
    → Unique Bytes-discrete tf
    → count_of t (decrement_all tf df) ≡ count_of t df - present (lookup Bytes-discrete t tf)
unfolding decrement_all lookup
count_of-decrement_all t [] df u = omega arith
count_of-decrement_all t ((term, n) ∷ tf) df (new, u) =
    ground (arith, count_of-decrement_all t tf (decrement term df) u, count_of-decrement term t df)

pub increment_all-HasNoZero : (tf df : Terms) → HasNoZero df → HasNoZero (increment_all tf df)
unfolding increment_all
increment_all-HasNoZero [] df h = h
increment_all-HasNoZero ((term, n) ∷ tf) df h =
    increment_all-HasNoZero tf (increment term df) (increment-HasNoZero term df h)

pub decrement_all-HasNoZero : (tf df : Terms) → HasNoZero df → HasNoZero (decrement_all tf df)
unfolding decrement_all
decrement_all-HasNoZero [] df h = h
decrement_all-HasNoZero ((term, n) ∷ tf) df h =
    decrement_all-HasNoZero tf (decrement term df) (decrement-HasNoZero term df h)
