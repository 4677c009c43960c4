-- ===== src/Cards/Lru/Recency.antt =====
-- internal/card/cache.go: the cache against a list of entries in the order of their last use.
use agent_dns.Cards.Lru.{
  CacheEntry, LruCache, new_lru_cache, write, without, back, remove_element, find_element,
  get_element, get, get_found, remove_if_some, evict_oldest, push_entry, update_entry, put_found,
  put, remove, len, clear,
}
use agent_dns.Cards.Lru.Elements.{
  init, drop_key, held, find_ref, find_ref-key, find_ref-without, map-without, held-map, back-found,
  map-heap, map-init, write-fresh, drop_key_absent, length-init, length-map, empty_back,
  write-absent,
}
use agent_dns.Cards.Lru.Invariant.{
  IsValid, new_lru_cache-IsValid, remove_element-IsValid, front, get_element-IsValid,
  update_entry-IsValid, push_entry-IsValid, evict_oldest-IsValid, clear-IsValid,
}
use agent_dns.Prelude.{
  ℕ, ◌+◌, ◌-◌, ◌*◌, ◌≡◌, subst, refl, sym, ap, ◌∙◌, List, [], ◌∷◌, Option, none, some, if_pos,
  Bytes, Bytes-discrete, ℕ_discrete, length, map, leb, ltb, if◌then◌else◌, Bool-cases, inl, inr,
  Option-cases, arith,
}
use agent_dns.Prelude.Assoc.{lookup}
use mathlib.Core.Option

-- The calls of a client, each with the time at which it reads the clock.
pub data Call (Card : Type 0) : Type 0 where
  getting : ℕ → Bytes → Call Card
  putting : ℕ → Bytes → Card → Call Card
  removing : Bytes → Call Card
  counting : Call Card
  clearing : Call Card

pub data Reply (Card : Type 0) : Type 0 where
  done : Reply Card
  answer : Option Card → Reply Card
  size : ℕ → Reply Card

unfoldable pub perform : {Card : Type 0} → Call Card → LruCache Card → Reply Card × LruCache Card
unfolding get put remove len clear
perform (Call.getting now k) c = let (found, c') = get now k c in (Reply.answer found, c')
perform (Call.putting now k card) c = (Reply.done, put now k card c)
perform (Call.removing k) c = (Reply.done, remove k c)
perform Call.counting c = (Reply.size (len c), c)
perform Call.clearing c = (Reply.done, clear c)

unfoldable pub replies : {Card : Type 0} → List (Call Card) → LruCache Card → List (Reply Card)
unfolding perform
replies [] c = []
replies (call ∷ calls) c = let (reply, c') = perform call c in reply ∷ replies calls c'

-- The abstract cache: the entries, the most recently used first.
pub record Recent (Card : Type 0) : Type 0 where
  pub max_size : ℕ
  pub ttl : ℕ
  pub entries : List (CacheEntry Card)

abbrev pub used :
    {Card : Type 0} → ℕ → Bytes → Option (CacheEntry Card) → Recent Card → Reply Card × Recent Card
unfolding drop_key
used now k none r = (Reply.answer none, r)
used now k (some entry) r =
    let others = drop_key k r.entries in
    if ltb entry.expires_at now
    then (Reply.answer none, record r { entries = others })
    else (Reply.answer (some entry.card), record r { entries = entry ∷ others })

-- The entries that stay when an entry for the key is put in front.
abbrev pub kept :
    {Card : Type 0} → Bytes → Option (CacheEntry Card) → Recent Card → List (CacheEntry Card)
unfolding drop_key init
kept k (some entry) r = drop_key k r.entries
kept k none r = if leb r.max_size (length r.entries) then init r.entries else r.entries

unfoldable pub promise : {Card : Type 0} → Call Card → Recent Card → Reply Card × Recent Card
unfolding held used kept drop_key
promise (Call.getting now k) r = used now k (held k r.entries) r
promise (Call.putting now k card) r = (
  Reply.done,
  record r {
    entries =
        record { card = card; expires_at = now + r.ttl; key = k } ∷ kept k (held k r.entries) r;
  },
)
promise (Call.removing k) r = (Reply.done, record r { entries = drop_key k r.entries })
promise Call.counting r = (Reply.size (length r.entries), r)
promise Call.clearing r = (Reply.done, record r { entries = [] })

unfoldable pub promised : {Card : Type 0} → List (Call Card) → Recent Card → List (Reply Card)
unfolding promise
promised [] r = []
promised (call ∷ calls) r = let (reply, r') = promise call r in reply ∷ promised calls r'

abbrev view : {Card : Type 0} → LruCache Card → Recent Card
view c = record { max_size = c.max_size; ttl = c.ttl; entries = map c.heap c.eviction }

module _ {Card : Type 0} (c : LruCache Card) (v : IsValid c) where
  -- One call keeps the invariant, gives the promised reply and leaves the promised entries.
  Keeps : Call Card → Type 0
  Keeps call =
      IsValid (perform call c).1
      × ((perform call c).0 ≡ (promise call (view c)).0)
      × (view (perform call c).1 ≡ (promise call (view c)).1)

  held-view :
      (k : Bytes)
      → held k (map c.heap c.eviction) ≡ Option.map c.heap (lookup Bytes-discrete k c.items)
  held-view k = held-map c.heap k c.eviction ∙ ap (Option.map c.heap) (sym (v.index k))

  get_element-view :
      (now : ℕ) (k : Bytes) (x : ℕ)
      → find_ref c.heap k c.eviction ≡ some x
      → (Reply.answer (get_element now x c).0 ≡ (used now k (some (c.heap x)) (view c)).0)
        × (view (get_element now x c).1 ≡ (used now k (some (c.heap x)) (view c)).1)
  unfolding get_element remove_element used
  get_element-view now k x found =
      let others = map-without c.heap k x c.eviction v.once found in
      elim (Bool-cases (ltb (c.heap x).expires_at now)) [
        | inl late ↦ rw late (refl, λ i. record (view c) { entries = others i })
        | inr early ↦
            rw (early, front c v k x found)
              (refl, λ i. record (view c) { entries = c.heap x ∷ others i })
      ]

  get-Keeps : (now : ℕ) (k : Bytes) → Keeps (Call.getting now k)
  unfolding Keeps perform promise get find_element get_found used
  get-Keeps now k = elim (Option-cases (lookup Bytes-discrete k c.items)) [
    | inl e ↦ rw (held-view k, e) (v, refl, refl)
    | inr (x, e) ↦
        let found : find_ref c.heap k c.eviction ≡ some x = sym (v.index k) ∙ e in
        rw (held-view k, e)
          (
            get_element-IsValid c v now k x found,
            (get_element-view now k x found).0,
            (get_element-view now k x found).1,
          )
  ]

  -- The view with an entry put in front.
  pushed : ℕ → Bytes → Card → Recent Card → Recent Card
  pushed now k card r = record r {
    entries = record { card = card; expires_at = now + r.ttl; key = k } ∷ r.entries;
  }

  update_entry-view :
      (now : ℕ) (k : Bytes) (card : Card) (x : ℕ)
      → find_ref c.heap k c.eviction ≡ some x
      → view (update_entry now x card c)
        ≡ pushed now k card (record (view c) { entries = drop_key k (map c.heap c.eviction) })
  unfolding update_entry pushed
  update_entry-view now k card x found =
      let entry : CacheEntry Card = record (c.heap x) { card = card; expires_at = now + c.ttl } in
      let h = write x entry c.heap in
      let own : (c.heap x).key ≡ k = find_ref-key c.heap k x c.eviction found in
      let new : h x ≡ record entry { key = k } =
        if_pos (ℕ_discrete x x) refl entry (c.heap x) ∙ (λ i. record entry { key = own i }) in
      let gone : find_ref c.heap (c.heap x).key (without x c.eviction) ≡ none =
        ground (arith, own, find_ref-without c.heap k k x c.eviction v.once found) in
      let others : map h (without x c.eviction) ≡ drop_key k (map c.heap c.eviction) =
        map-heap c.heap h (without x c.eviction)
          (write-absent x entry c.heap (without x c.eviction) gone)
        ∙ map-without c.heap k x c.eviction v.once found in
      rw (front c v k x found) (λ i. record (view c) { entries = new i ∷ others i })

  push_entry-view :
      (now : ℕ) (k : Bytes) (card : Card)
      → view (push_entry now k card c) ≡ pushed now k card (view c)
  unfolding push_entry pushed
  push_entry-view now k card =
      let entry : CacheEntry Card = record { card = card; expires_at = now + c.ttl; key = k } in
      let new = if_pos (ℕ_discrete c.next c.next) refl entry (c.heap c.next) in
      let others =
        map-heap c.heap (write c.next entry c.heap) c.eviction
          (write-fresh c.next entry c.heap c.eviction v.fresh) in
      λ i. record (view c) { entries = new i ∷ others i }

  evict_oldest-view :
      view (evict_oldest c) ≡ record (view c) { entries = init (map c.heap c.eviction) }
  unfolding evict_oldest remove_if_some remove_element init
  evict_oldest-view = elim (Option-cases (back c.eviction)) [
    | inl e ↦ rw (e, empty_back c.eviction e) refl
    | inr (x, e) ↦
        let (found, cut) : (find_ref c.heap (c.heap x).key c.eviction ≡ some x)
            × (without x c.eviction ≡ init c.eviction) =
          back-found c.heap x c.eviction v.once e in
        rw e
          (λ i. record (view c) { entries = (ap (map c.heap) cut ∙ map-init c.heap c.eviction) i })
  ]

  evict_oldest-absent :
      (k : Bytes)
      → find_ref c.heap k c.eviction ≡ none
      → find_ref (evict_oldest c).heap k (evict_oldest c).eviction ≡ none
  unfolding evict_oldest remove_if_some remove_element
  evict_oldest-absent k absent = elim (Option-cases (back c.eviction)) [
    | inl e ↦ rw e absent
    | inr (x, e) ↦
        let found : find_ref c.heap (c.heap x).key c.eviction ≡ some x =
          (back-found c.heap x c.eviction v.once e).0 in
        rw e (
          ground
            (arith, absent, find_ref-without c.heap (c.heap x).key k x c.eviction v.once found))
  ]

  length-evict_oldest : length (evict_oldest c).eviction ≡ length c.eviction - 1
  length-evict_oldest =
      sym (length-map (evict_oldest c).heap (evict_oldest c).eviction)
      ∙ ap (λ (r : Recent Card). length r.entries) evict_oldest-view
      ∙ length-init (map c.heap c.eviction)
      ∙ ap (λ n. n - 1) (length-map c.heap c.eviction)

module _ {Card : Type 0} (c : LruCache Card) (v : IsValid c) where
  -- A new key, where the oldest entry has to go first.
  push_full :
      (now : ℕ) (k : Bytes) (card : Card)
      → find_ref c.heap k c.eviction ≡ none
      → IsValid (push_entry now k card (evict_oldest c))
        × (view (push_entry now k card (evict_oldest c))
            ≡ pushed c v now k card (record (view c) { entries = init (map c.heap c.eviction) }))
  unfolding pushed
  push_full now k card absent =
      let e = evict_oldest-IsValid c v in
      let same : (evict_oldest c).max_size ≡ c.max_size =
        ap (λ (r : Recent Card). r.max_size) (evict_oldest-view c v) in
      (
        push_entry-IsValid (evict_oldest c) e now k card (evict_oldest-absent c v k absent)
            (omega (arith, v.bound, length-evict_oldest c v, same)),
        push_entry-view (evict_oldest c) e now k card
            ∙ ap (pushed c v now k card) (evict_oldest-view c v),
      )

  put_as :
      (now : ℕ) (k : Bytes) (card : Card) (c' : LruCache Card) (es : List (CacheEntry Card))
      → put now k card c ≡ push_entry now k card c'
      → kept k (held k (map c.heap c.eviction)) (view c) ≡ es
      → IsValid (push_entry now k card c')
      → view (push_entry now k card c') ≡ pushed c v now k card (record (view c) { entries = es })
      → Keeps c v (Call.putting now k card)
  unfolding Keeps perform promise pushed
  put_as now k card c' es p q valid same = (
    subst IsValid (sym p) valid,
    refl,
    ap view p ∙ same ∙ (λ i. record (view c) {
      entries = record { card = card; expires_at = now + c.ttl; key = k } ∷ sym q i;
    }),
  )

  put-Keeps : (now : ℕ) (k : Bytes) (card : Card) → Keeps c v (Call.putting now k card)
  unfolding Keeps perform promise put find_element put_found kept pushed
  put-Keeps now k card = elim (Option-cases (lookup Bytes-discrete k c.items)) [
    | inl e ↦
        let absent : find_ref c.heap k c.eviction ≡ none = sym (v.index k) ∙ e in
        elim (Bool-cases (leb c.max_size (length c.eviction))) [
          | inl h ↦
              let (valid, same) = push_full now k card absent in
              put_as now k card (evict_oldest c) (init (map c.heap c.eviction)) (rw (e, h) refl)
                (rw (held-view c v k, e, length-map c.heap c.eviction, h) refl) valid same
          | inr h ↦
              put_as now k card c (map c.heap c.eviction) (rw (e, h) refl)
                (rw (held-view c v k, e, length-map c.heap c.eviction, h) refl)
                (push_entry-IsValid c v now k card absent (ground arith))
                (push_entry-view c v now k card)
        ]
    | inr (x, e) ↦
        let found : find_ref c.heap k c.eviction ≡ some x = sym (v.index k) ∙ e in
        rw (held-view c v k, e)
          (
            update_entry-IsValid c v now card k x found,
            refl,
            update_entry-view c v now k card x found,
          )
  ]

  remove-Keeps : (k : Bytes) → Keeps c v (Call.removing k)
  unfolding Keeps perform promise remove find_element remove_if_some remove_element
  remove-Keeps k = elim (Option-cases (lookup Bytes-discrete k c.items)) [
    | inl e ↦
        let absent : find_ref c.heap k c.eviction ≡ none = sym (v.index k) ∙ e in
        rw e (
          v,
          refl,
          λ i. record (view c) { entries = sym (drop_key_absent c.heap k c.eviction absent) i },
        )
    | inr (x, e) ↦
        let found : find_ref c.heap k c.eviction ≡ some x = sym (v.index k) ∙ e in
        rw e (
          remove_element-IsValid c v k x found,
          refl,
          λ i. record (view c) { entries = map-without c.heap k x c.eviction v.once found i },
        )
  ]

  len-Keeps : Keeps c v Call.counting
  unfolding Keeps perform promise len
  len-Keeps = (v, ap Reply.size (v.count ∙ sym (length-map c.heap c.eviction)), refl)

  clear-Keeps : Keeps c v Call.clearing
  unfolding Keeps perform promise clear
  clear-Keeps = (clear-IsValid c, refl, refl)

  perform-Keeps : (call : Call Card) → Keeps c v call
  perform-Keeps (Call.getting now k) = get-Keeps c v now k
  perform-Keeps (Call.putting now k card) = put-Keeps now k card
  perform-Keeps (Call.removing k) = remove-Keeps k
  perform-Keeps Call.counting = len-Keeps
  perform-Keeps Call.clearing = clear-Keeps

replies-valid :
    {Card : Type 0} (calls : List (Call Card)) (c : LruCache Card)
    → IsValid c
    → replies calls c ≡ promised calls (view c)
unfolding replies promised Keeps
replies-valid [] c v = refl
replies-valid (call ∷ calls) c v =
    let (valid, reply, left) = perform-Keeps c v call in
    λ i. reply i ∷ (replies-valid calls (perform call c).1 valid ∙ ap (promised calls) left) i

-- The cache is a list of entries in the order of their last use: whatever calls a client makes, at
-- whatever times, a new cache gives the replies of that list, which holds an entry for each key at
-- most, moves it to the front when it is read or written, drops it when it is read after its time
-- to live, and gives up the last one for a new key when it is full.
pub replies-new_lru_cache :
    {Card : Type 0} (nil : CacheEntry Card) (max_size ttl_seconds : ℕ) (calls : List (Call Card))
    → replies calls (new_lru_cache nil max_size ttl_seconds)
      ≡ promised calls
          (record { max_size = max_size; ttl = ttl_seconds * 1000000000; entries = [] })
unfolding new_lru_cache
replies-new_lru_cache nil max_size ttl_seconds calls =
    replies-valid calls (new_lru_cache nil max_size ttl_seconds)
      (new_lru_cache-IsValid nil max_size ttl_seconds)
