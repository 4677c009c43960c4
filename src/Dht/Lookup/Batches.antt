-- ===== src/Dht/Lookup/Batches.antt =====
-- Whom the rounds of a lookup ask, whatever the peers answer and in whatever order.
use agent_dns.Dht.Lookup.Nearest.{is_in_head}
use agent_dns.Dht.Bucket.{NodeContact}
use agent_dns.Dht.Lookup.{
  Round, is_in, without, kept, nodes_of, collect, ids_of, to_query, cut, proceed, find_rounds,
}
use agent_dns.Dht.Node.{Message}
use agent_dns.Dht.NodeId.{NodeId, IsNodeId}
use agent_dns.Dht.Routing.Closest.{first-append}
use agent_dns.Dht.Routing.{closer, first}
use agent_dns.Prelude.Sort.{sort, sort-All}
use agent_dns.Prelude.{
  ℕ, ◌≤◌, ◌≡◌, ◌≢◌, sym, subst, Bool, true, false, List, [], ◌∷◌, ◌++◌, Option, Bool-cases, inl,
  inr, length, All, All-append, All-split, All-imp, arith,
}

-- The contacts that the rounds bring have identifiers of 32 bytes.
abbrev pub AreRounds : List Round → Type 0
AreRounds = All (λ r. All (λ m. All (λ c. IsNodeId c.id) (nodes_of m)) r.received)

-- A contact with an identifier that is not the node's own.
abbrev pub Foreign : NodeId → NodeContact → Type 0
Foreign self c = IsNodeId c.id × (c.id ≢ self)

All-any : (xs : List NodeContact) → All (λ n. Unit {0}) xs
All-any [] = tt
All-any (x ∷ xs) = (tt, All-any xs)

pub without-All {ℓ} :
    (Q : NodeContact → Type ℓ) (ids : List NodeId) (ns : List NodeContact)
    → All Q ns
    → All (λ n. Q n × (is_in n.id ids ≡ false)) (without ids ns)
unfolding without
without-All Q ids [] h = tt
without-All Q ids (n ∷ ns) (q, h) = elim (Bool-cases (is_in n.id ids)) [
  | inl old ↦ rw old (without-All Q ids ns h)
  | inr new ↦ rw new ((q, new), without-All Q ids ns h)
]

pub collect-Foreign :
    (self : NodeId) (queried : List NodeId) (rs : List (Option Message))
    → All (λ m. All (λ c. IsNodeId c.id) (nodes_of m)) rs
    → All (Foreign self) (collect self queried rs)
unfolding collect
collect-Foreign self queried [] h = tt
collect-Foreign self queried (r ∷ rs) (p, h) =
    All-append (Foreign self) (kept self queried (nodes_of r)) (collect self queried rs)
      (All-imp (λ c q. (q.0, is_in_head self c.id queried q.1)) (kept self queried (nodes_of r))
        (without-All (λ c. IsNodeId c.id) (self ∷ queried) (nodes_of r) p))
      (collect-Foreign self queried rs h)

pub first-All {ℓ} :
    (Q : NodeContact → Type ℓ) (k : ℕ) (xs : List NodeContact) → All Q xs → All Q (first k xs)
first-All Q k xs h =
    let (rest, whole, len) = first-append k xs in
    (All-split Q (first k xs) rest (subst (All Q) (sym whole) h)).0

pub cut-All {ℓ} :
    (Q : NodeContact → Type ℓ) (target : NodeId) (k : ℕ) (xs : List NodeContact)
    → All Q xs
    → All Q (cut target k xs)
cut-All Q target k xs h = first-All Q k (sort (closer target) xs) (sort-All (closer target) Q xs h)

to_query-All {ℓ} :
    (Q : NodeContact → Type ℓ) (alpha : ℕ) (queried : List NodeId) (xs : List NodeContact)
    → All Q xs
    → All Q (to_query alpha queried xs)
to_query-All Q alpha queried xs h =
    first-All Q alpha (without queried xs)
      (All-imp (λ n q. q.0) (without queried xs) (without-All Q queried xs h))

-- One round keeps what holds of all contacts.
proceed-All {ℓ} :
    (Q : NodeContact → Type ℓ) (asked new : List NodeContact) (complete : Bool)
    (result : List NodeContact) (rest : List NodeContact × List (List NodeContact))
    → All Q new
    → All Q result
    → All Q rest.0
    → All Q (proceed asked new complete result rest).0
proceed-All Q [] new complete result rest n r p = r
proceed-All Q (x ∷ asked) new false result rest n r p = All-append Q result new r n
proceed-All Q (x ∷ asked) [] true result rest n r p = r
proceed-All Q (x ∷ asked) (y ∷ new) true result rest n r p = p

-- One round asks what it asks, and leaves the rest to the others.
proceed-batches {ℓ} :
    (Q : List NodeContact → Type ℓ) (asked new : List NodeContact) (complete : Bool)
    (result : List NodeContact) (rest : List NodeContact × List (List NodeContact))
    → Q asked
    → All Q rest.1
    → All Q (proceed asked new complete result rest).1
proceed-batches Q [] new complete result rest a p = tt
proceed-batches Q (x ∷ asked) new false result rest a p = (a, tt)
proceed-batches Q (x ∷ asked) [] true result rest a p = (a, tt)
proceed-batches Q (x ∷ asked) (y ∷ new) true result rest a p = (a, p)

length-to_query :
    (alpha : ℕ) (queried : List NodeId) (xs : List NodeContact)
    → length (to_query alpha queried xs) ≤ alpha
length-to_query alpha queried xs =
    let (rest, whole, len) = first-append alpha (without queried xs) in omega (arith, len)

-- Contacts of one round: at most `alpha`, none of them the node itself.
abbrev pub IsBatch : NodeId → ℕ → List NodeContact → Type 0
IsBatch self alpha batch = (length batch ≤ alpha) × All (Foreign self) batch

-- No round asks for a contact that an earlier one has asked, or whose identifier is in `asked`.
abbrev pub AreFresh : List NodeId → List (List NodeContact) → Type 0
AreFresh asked [] = Unit
AreFresh asked (batch ∷ batches) =
    All (λ n. is_in n.id asked ≡ false) batch × AreFresh (ids_of batch ++ asked) batches

proceed-AreFresh :
    (queried : List NodeId) (asked new : List NodeContact) (complete : Bool)
    (result : List NodeContact) (rest : List NodeContact × List (List NodeContact))
    → All (λ n. is_in n.id queried ≡ false) asked
    → AreFresh (ids_of asked ++ queried) rest.1
    → AreFresh queried (proceed asked new complete result rest).1
proceed-AreFresh queried [] new complete result rest a p = tt
proceed-AreFresh queried (x ∷ asked) new false result rest a p = (a, tt)
proceed-AreFresh queried (x ∷ asked) [] true result rest a p = (a, tt)
proceed-AreFresh queried (x ∷ asked) (y ∷ new) true result rest a p = (a, p)

to_query-fresh :
    (alpha : ℕ) (queried : List NodeId) (xs : List NodeContact)
    → All (λ n. is_in n.id queried ≡ false) (to_query alpha queried xs)
to_query-fresh alpha queried xs =
    first-All (λ n. is_in n.id queried ≡ false) alpha (without queried xs)
      (All-imp (λ n q. q.1) (without queried xs)
        (without-All (λ n. Unit {0}) queried xs (All-any xs)))

pub find_rounds-AreFresh :
    (self target : NodeId) (alpha k : ℕ) (rounds : List Round) (queried : List NodeId)
    (result : List NodeContact)
    → AreFresh queried (find_rounds self target alpha k rounds queried result).1
unfolding find_rounds
find_rounds-AreFresh self target alpha k [] queried result =
    (to_query-fresh alpha queried result, tt)
find_rounds-AreFresh self target alpha k (r ∷ rounds) queried result =
    let asked = to_query alpha queried result in
    let queried' = ids_of asked ++ queried in
    let new = collect self queried' r.received in
    proceed-AreFresh queried asked new r.complete result _ (to_query-fresh alpha queried result)
      (find_rounds-AreFresh self target alpha k rounds queried' (cut target k (result ++ new)))

pub find_rounds-Foreign :
    (self target : NodeId) (alpha k : ℕ) (rounds : List Round) (queried : List NodeId)
    (result : List NodeContact)
    → AreRounds rounds
    → All (Foreign self) result
    → All (Foreign self) (find_rounds self target alpha k rounds queried result).0
      × All (IsBatch self alpha) (find_rounds self target alpha k rounds queried result).1
unfolding find_rounds
find_rounds-Foreign self target alpha k [] queried result h f = (
  f,
  ((length-to_query alpha queried result, to_query-All (Foreign self) alpha queried result f), tt),
)
find_rounds-Foreign self target alpha k (r ∷ rounds) queried result (p, h) f =
    let asked = to_query alpha queried result in
    let queried' = ids_of asked ++ queried in
    let new = collect self queried' r.received in
    let fresh = collect-Foreign self queried' r.received p in
    let rest =
      find_rounds-Foreign self target alpha k rounds queried' (cut target k (result ++ new)) h (
        cut-All (Foreign self) target k (result ++ new)
          (All-append (Foreign self) result new f fresh)) in
    (
      proceed-All (Foreign self) asked new r.complete result _ fresh f rest.0,
      proceed-batches (IsBatch self alpha) asked new r.complete result _
          (length-to_query alpha queried result, to_query-All (Foreign self) alpha queried result f)
          rest.1,
    )
