-- ===== src/Cards/Lru/Race.antt =====
-- internal/card/cache.go: two calls that overlap. `Get` gives its lock up between finding an element and
-- removing it.
use agent_dns.Cards.Lru.{
  CacheEntry, LruCache, write, without, remove_element, find_element, get_element, put, remove,
  push_entry, put_found, evict_oldest, remove_if_some, back,
}
use agent_dns.Cards.Lru.Elements.{
  find_ref, find_ref-key, find_ref-without, length-without, find_ref-All,
}
use agent_dns.Cards.Lru.Invariant.{IsValid, remove_element-IsValid}
use agent_dns.Prelude.{
  ℕ, suc, ◌+◌, ◌≤◌, ◌<◌, max, ◌≡◌, refl, sym, ap, ◌∙◌, List, [], ◌∷◌, none, some, if_pos, if_neg,
  Bytes, Bytes-discrete, ℕ_discrete, length, leb, lt→ltb, subst, arith, Bool-cases, inl, inr,
}
use agent_dns.Prelude.Assoc.{lookup, insert, lookup-erase}

-- One client finds an element; before it goes on, another removes the key and puts a card under it.
unfoldable pub raced : {Card : Type 0} → ℕ → Bytes → ℕ → Card → LruCache Card → LruCache Card
unfolding get_element put remove
raced now k e card c = (get_element now e (put now k card (remove k c))).1

length_zero {ℓ} : {A : Type ℓ} (xs : List A) → length xs ≡ 0 → xs ≡ []
length_zero [] h = refl
length_zero (x ∷ xs) h = absurd (omega arith)

put_new :
    {Card : Type 0} (now : ℕ) (k : Bytes) (card : Card) (c : LruCache Card)
    → lookup Bytes-discrete k c.items ≡ none
    → suc (length c.eviction) ≤ max 1 c.max_size
    → put now k card c ≡ push_entry now k card c
unfolding put find_element put_found evict_oldest remove_if_some back
put_new now k card c absent room = elim (Bool-cases (leb c.max_size (length c.eviction))) [
  | inl h ↦
      let empty : c.eviction ≡ [] = length_zero c.eviction (ground arith) in
      rw (absent, h, empty) refl
  | inr h ↦ rw (absent, h) refl
]

get_element-late :
    {Card : Type 0} (now e : ℕ) (c : LruCache Card)
    → (c.heap e).expires_at < now
    → (get_element now e c).1 ≡ remove_element e c
unfolding get_element
get_element-late now e c late = rw (lt→ltb (c.heap e).expires_at now late) refl

push_entry-old :
    {Card : Type 0} (now : ℕ) (k : Bytes) (card : Card) (e : ℕ) (c : LruCache Card)
    → e < c.next
    → (push_entry now k card c).heap e ≡ c.heap e
unfolding push_entry
push_entry-old now k card e c old =
    if_neg (ℕ_discrete c.next e) (λ q. absurd (omega arith)) _ (c.heap e)

-- The removal of an element whose key has a newer one.
remove_stale :
    {Card : Type 0} (now : ℕ) (k : Bytes) (card : Card) (e : ℕ) (c : LruCache Card)
    → e < c.next
    → (c.heap e).key ≡ k
    → let d = remove_element e (push_entry now k card c) in
      (find_element k d ≡ none)
      × (find_ref d.heap k d.eviction ≡ some c.next)
      × ((d.heap c.next).card ≡ card)
unfolding remove_element push_entry find_element find_ref without
remove_stale now k card e c old own =
    let entry : CacheEntry _ = record { card = card; expires_at = now + c.ttl; key = k } in
    let h = write c.next entry c.heap in
    let kept : h e ≡ c.heap e =
      if_neg (ℕ_discrete c.next e) (λ q. absurd (omega arith)) entry (c.heap e) in
    let new : h c.next ≡ entry = if_pos (ℕ_discrete c.next c.next) refl entry (c.heap c.next) in
    (
      ground (
        arith,
        kept,
        own,
        lookup-erase Bytes-discrete (h e).key k (insert Bytes-discrete k c.next c.items),
      ),
      ground (arith, new),
      ap (λ (x : CacheEntry _). x.card) new,
    )

module _ {Card : Type 0} (c : LruCache Card) (v : IsValid c) (k : Bytes) (e : ℕ)
    (found : find_element k c ≡ some e) where
  listed : find_ref c.heap k c.eviction ≡ some e
  unfolding find_element
  listed = sym (v.index k) ∙ found

  -- The removed element leaves room, so that the new one evicts nothing.
  put-remove :
      (now : ℕ) (card : Card)
      → put now k card (remove k c) ≡ push_entry now k card (remove_element e c)
  unfolding remove remove_if_some
  put-remove now card =
      let r = remove_element-IsValid c v k e listed in
      let gone : find_ref c.heap k (without e c.eviction) ≡ none =
        find_ref-without c.heap k k e c.eviction v.once listed
        ∙ if_pos (Bytes-discrete k k) refl none (find_ref c.heap k c.eviction) in
      rw found (
        put_new now k card (remove_element e c) (r.index k ∙ gone)
          (omega (arith, v.bound, length-without c.heap k e c.eviction listed)))

  -- In a cache whose map and list agree, where a key's element has expired: while `Get` waits for its
  -- lock, another client removes the key and puts a new card under it. `Get` then takes the new card
  -- out of the map, so that no read finds it, though it is still in the list.
  pub raced_lem :
      (now : ℕ) (card : Card)
      → (c.heap e).expires_at < now
      → (find_element k (raced now k e card c) ≡ none)
        × (find_ref (raced now k e card c).heap k (raced now k e card c).eviction ≡ some c.next)
        × (((raced now k e card c).heap c.next).card ≡ card)
  unfolding raced remove_element
  raced_lem now card late =
      let r = remove_element e c in
      let old : e < c.next = find_ref-All (λ j. j < c.next) c.heap k e c.eviction v.fresh listed in
      let next = push_entry now k card r in
      let same : raced now k e card c ≡ remove_element e next =
        ap (λ d. (get_element now e d).1) (put-remove now card)
        ∙ get_element-late now e next (
            subst (λ (x : CacheEntry Card). x.expires_at < now)
              (sym (push_entry-old now k card e r old)) late) in
      rw same (remove_stale now k card e r old (find_ref-key c.heap k e c.eviction listed))
