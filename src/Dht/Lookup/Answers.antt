-- ===== src/Dht/Lookup/Answers.antt =====
-- The first value among the responses of a value lookup.
use agent_dns.Dht.Bucket.{NodeContact}
use agent_dns.Dht.Node.{Message}
use mathlib.Core.Option.{none-ne-some}
use agent_dns.Prelude.{All, take, length, All-append, append_assoc, ap}
use agent_dns.Dht.Lookup.{
  Round, proceed, find_rounds, collect, ids_of, to_query, cut, value_rounds, proceed_value,
  first_value, value_of,
}
use agent_dns.Dht.Node.{EntityDhtRecord}
use agent_dns.Dht.NodeId.{NodeId}
use agent_dns.Prelude.{
  ℕ, ◌≡◌, ◌⊎◌, refl, sym, ◌∙◌, Bool, true, false, List, [], ◌∷◌, ◌++◌, Option, none, some,
  Option-cases, inl, inr,
}

-- All responses, in the order in which they arrive.
abbrev pub responses : List Round → List (Option Message)
responses [] = []
responses (r ∷ rounds) = r.received ++ responses rounds

-- The response holds no value.
abbrev pub IsSilent : Option Message → Type 0
IsSilent r = value_of r ≡ none

-- Some response holds the value, and none before it holds any.
pub record IsFirst (v : EntityDhtRecord) (rs : List (Option Message)) : Type 0 where
  pub front : List (Option Message)
  pub response : Message
  pub back : List (Option Message)
  pub whole : rs ≡ front ++ some response ∷ back
  pub holds : response.value ≡ some v
  pub silent : All IsSilent front

first_value-some :
    (rs : List (Option Message)) (v : EntityDhtRecord) → first_value rs ≡ some v → IsFirst v rs
first_value-some [] v h = absurd (none-ne-some v h)
first_value-some (none ∷ rs) v h =
    let f = first_value-some rs v h in
    record {
      front = none ∷ f.front;
      response = f.response;
      back = f.back;
      whole = ap (◌∷◌ none) f.whole;
      holds = f.holds;
      silent = (refl, f.silent);
    }
first_value-some (some m ∷ rs) v h = elim (Option-cases m.value) [
  | inl miss ↦
      let f = first_value-some rs v (rw miss at h) in
      record {
        front = some m ∷ f.front;
        response = f.response;
        back = f.back;
        whole = ap (◌∷◌ (some m)) f.whole;
        holds = f.holds;
        silent = (miss, f.silent);
      }
  | inr (w, hit) ↦ record {
    front = [];
    response = m;
    back = rs;
    whole = refl;
    holds = hit ∙ (rw hit at h);
    silent = tt;
  }
]

first_value-none : (rs : List (Option Message)) → first_value rs ≡ none → All IsSilent rs
first_value-none [] h = tt
first_value-none (none ∷ rs) h = (refl, first_value-none rs h)
first_value-none (some m ∷ rs) h = elim (Option-cases m.value) [
  | inl miss ↦ (miss, first_value-none rs (rw miss at h))
  | inr (w, hit) ↦ absurd (none-ne-some w (sym (rw hit at h)))
]

IsFirst-front :
    (v : EntityDhtRecord) (rs more : List (Option Message)) → IsFirst v rs → IsFirst v (rs ++ more)
IsFirst-front v rs more f = record {
  front = f.front;
  response = f.response;
  back = f.back ++ more;
  whole = ap (λ xs. xs ++ more) f.whole ∙ append_assoc f.front (some f.response ∷ f.back) more;
  holds = f.holds;
  silent = f.silent;
}

IsFirst-behind :
    (v : EntityDhtRecord) (rs more : List (Option Message))
    → All IsSilent rs
    → IsFirst v more
    → IsFirst v (rs ++ more)
IsFirst-behind v rs more h f = record {
  front = rs ++ f.front;
  response = f.response;
  back = f.back;
  whole = ap (λ xs. rs ++ xs) f.whole ∙ sym (append_assoc rs f.front (some f.response ∷ f.back));
  holds = f.holds;
  silent = All-append IsSilent rs f.front h f.silent;
}

proceed_value_lem :
    (asked new : List NodeContact) (complete : Bool) (found rest : Option EntityDhtRecord)
    (v : EntityDhtRecord)
    → proceed_value asked new complete found rest ≡ some v
    → (found ≡ some v) ⊎ (found ≡ none) × (rest ≡ some v)
proceed_value_lem [] new complete found rest v h = absurd (none-ne-some v h)
proceed_value_lem (a ∷ asked) new complete (some w) rest v h = inl h
proceed_value_lem (a ∷ asked) new false none rest v h = absurd (none-ne-some v h)
proceed_value_lem (a ∷ asked) [] true none rest v h = absurd (none-ne-some v h)
proceed_value_lem (a ∷ asked) (n ∷ new) true none rest v h = inr (refl, h)

pub value_rounds-IsFirst :
    (self key : NodeId) (alpha k : ℕ) (rounds : List Round) (queried : List NodeId)
    (candidates : List NodeContact) (v : EntityDhtRecord)
    → value_rounds self key alpha k rounds queried candidates ≡ some v
    → IsFirst v (responses rounds)
unfolding value_rounds
value_rounds-IsFirst self key alpha k [] queried candidates v h = absurd (none-ne-some v h)
value_rounds-IsFirst self key alpha k (r ∷ rounds) queried candidates v h =
    let asked = to_query alpha queried candidates in
    let queried' = ids_of asked ++ queried in
    let new = collect self queried' r.received in
    elim (proceed_value_lem asked new r.complete (first_value r.received) _ v h) [
      | inl found ↦
          IsFirst-front v r.received (responses rounds) (first_value-some r.received v found)
      | inr (miss, rest) ↦
          IsFirst-behind v r.received (responses rounds) (first_value-none r.received miss) (
            value_rounds-IsFirst self key alpha k rounds queried' (cut key k (candidates ++ new)) v
              rest)
    ]

proceed_value-none :
    (a : NodeContact) (asked new : List NodeContact) (complete : Bool)
    (found rest : Option EntityDhtRecord)
    → proceed_value (a ∷ asked) new complete found rest ≡ none
    → found ≡ none
proceed_value-none a asked new complete none rest h = refl
proceed_value-none a asked new complete (some w) rest h = h

-- No response of the round holds a value.
abbrev pub IsQuiet : Round → Type 0
IsQuiet r = All IsSilent r.received

-- A round of both lookups: where the value lookup ends without a value, the round is quiet if it asks
-- anybody.
proceed-IsQuiet :
    (asked new : List NodeContact) (result : List NodeContact) (rest : Option EntityDhtRecord)
    (others : List NodeContact × List (List NodeContact)) (r : Round) (rounds : List Round)
    → proceed_value asked new r.complete (first_value r.received) rest ≡ none
    → (rest ≡ none → All IsQuiet (take (length others.1) rounds))
    → All IsQuiet (take (length (proceed asked new r.complete result others).1) (r ∷ rounds))
proceed-IsQuiet asked new result rest others r rounds h more = either asked new r.complete h
  where
    either :
        (asked new : List NodeContact) (complete : Bool)
        → proceed_value asked new complete (first_value r.received) rest ≡ none
        → All IsQuiet (take (length (proceed asked new complete result others).1) (r ∷ rounds))
    either [] new complete h = tt
    either (a ∷ asked) new false h =
        (first_value-none r.received (proceed_value-none a asked new false _ rest h), tt)
    either (a ∷ asked) [] true h =
        (first_value-none r.received (proceed_value-none a asked [] true _ rest h), tt)
    either (a ∷ asked) (n ∷ new) true h =
        let miss = proceed_value-none a asked (n ∷ new) true (first_value r.received) rest h in
        (first_value-none r.received miss, more (rw miss at h))

-- A value lookup that ends without a value has met no value in the rounds that the node lookup takes.
pub value_rounds-none :
    (self key : NodeId) (alpha k : ℕ) (rounds : List Round) (queried : List NodeId)
    (candidates : List NodeContact)
    → value_rounds self key alpha k rounds queried candidates ≡ none
    → All IsQuiet (take (length (find_rounds self key alpha k rounds queried candidates).1) rounds)
unfolding value_rounds find_rounds
value_rounds-none self key alpha k [] queried candidates h = tt
value_rounds-none self key alpha k (r ∷ rounds) queried candidates h =
    let asked = to_query alpha queried candidates in
    let queried' = ids_of asked ++ queried in
    let new = collect self queried' r.received in
    proceed-IsQuiet asked new candidates
      (value_rounds self key alpha k rounds queried' (cut key k (candidates ++ new)))
      (find_rounds self key alpha k rounds queried' (cut key k (candidates ++ new))) r rounds h
      (value_rounds-none self key alpha k rounds queried' (cut key k (candidates ++ new)))
