-- ===== src/Cards/Lru/Invariant.antt =====
-- internal/card/cache.go: the map and the list of a cache agree, and each operation keeps that.
use agent_dns.Cards.Lru.{
  CacheEntry, LruCache, new_lru_cache, write, without, move_to_front, back, remove_element,
  get_element, evict_oldest, push_entry, update_entry, clear,
}
use agent_dns.Cards.Lru.Elements.{
  find_ref, KeysOnce, find_ref-key, find_ref-without, KeysOnce-without, length-without,
  is_listed-found, back-found, find_ref-heap, KeysOnce-heap, all_of, without-All, find_ref-All,
  write-fresh,
}
use agent_dns.Prelude.{
  ℕ, suc, ◌+◌, ◌≤◌, ◌<◌, max, ◌≡◌, refl, sym, ap, ◌∙◌, List, [], ◌∷◌, none, some, if_pos, Bytes,
  Bytes-discrete, ℕ_discrete, length, ltb, Bool-cases, inl, inr, Option-cases, All, All-imp, arith,
}
use agent_dns.Prelude.Assoc.{
  lookup, insert, erase, lookup-insert, lookup-erase, Unique, insert-Unique,
}
use agent_dns.Prelude.Assoc.Totals.{total, total-insert, total-erase, erase-Unique}

-- The map leads to the elements of the list, each under its key; no key stands twice in either; the
-- next element is new; and the size is within its bound.
pub record IsValid {Card : Type 0} (c : LruCache Card) : Type 0 where
  pub index : (k : Bytes) → lookup Bytes-discrete k c.items ≡ find_ref c.heap k c.eviction
  pub once : KeysOnce c.heap c.eviction
  pub fresh : All (λ e. e < c.next) c.eviction
  pub keyed : Unique Bytes-discrete c.items
  pub count : length c.items ≡ length c.eviction
  pub bound : length c.eviction ≤ max 1 c.max_size

length-total : (m : List (Bytes × ℕ)) → total Bytes-discrete (λ e. 1) m ≡ length m
length-total [] = refl
length-total (x ∷ m) = omega (arith, length-total m)

pub new_lru_cache-IsValid :
    {Card : Type 0} (nil : CacheEntry Card) (max_size ttl : ℕ)
    → IsValid (new_lru_cache nil max_size ttl)
unfolding new_lru_cache lookup find_ref
new_lru_cache-IsValid nil max_size ttl = record {
  index = λ k. refl;
  once = tt;
  fresh = tt;
  keyed = tt;
  count = refl;
  bound = omega arith;
}

module _ {Card : Type 0} (c : LruCache Card) (v : IsValid c) where
  module _ (k : Bytes) (e : ℕ) (found : find_ref c.heap k c.eviction ≡ some e) where
    own_key : (c.heap e).key ≡ k
    own_key = find_ref-key c.heap k e c.eviction found

    count-erase :
        length (erase Bytes-discrete (c.heap e).key c.items) ≡ length (without e c.eviction)
    count-erase =
        let one : ℕ → ℕ = λ x. 1 in
        ground (
          arith,
          v.count,
          own_key,
          v.index k,
          found,
          total-erase Bytes-discrete one k c.items v.keyed,
          length-total c.items,
          length-total (erase Bytes-discrete k c.items),
          length-without c.heap k e c.eviction found,
        )

    pub remove_element-IsValid : IsValid (remove_element e c)
    unfolding remove_element
    remove_element-IsValid = record {
      index = λ j. ground (
        arith,
        lookup-erase Bytes-discrete (c.heap e).key j c.items,
        v.index j,
        own_key,
        find_ref-without c.heap k j e c.eviction v.once found,
      );
      once = KeysOnce-without c.heap k e c.eviction v.once found;
      fresh = without-All (λ j. j < c.next) e c.eviction v.fresh;
      keyed = erase-Unique Bytes-discrete (c.heap e).key c.items v.keyed;
      count = count-erase;
      bound = omega (arith, v.bound, length-without c.heap k e c.eviction found);
    }

    pub front : move_to_front e c.eviction ≡ e ∷ without e c.eviction
    unfolding move_to_front
    front = rw (is_listed-found c.heap k e c.eviction found) refl

    find_ref-front :
        (j : Bytes) → find_ref c.heap j (e ∷ without e c.eviction) ≡ find_ref c.heap j c.eviction
    unfolding find_ref
    find_ref-front j =
        ground (arith, own_key, found, find_ref-without c.heap k j e c.eviction v.once found)

    moved-IsValid : IsValid (record c { eviction = e ∷ without e c.eviction })
    moved-IsValid = record {
      index = λ j. v.index j ∙ sym (find_ref-front j);
      once = (
        ground (arith, own_key, find_ref-without c.heap k k e c.eviction v.once found),
        KeysOnce-without c.heap k e c.eviction v.once found,
      );
      fresh = (
        find_ref-All (λ j. j < c.next) c.heap k e c.eviction v.fresh found,
        without-All (λ j. j < c.next) e c.eviction v.fresh,
      );
      keyed = v.keyed;
      count = v.count ∙ sym (length-without c.heap k e c.eviction found);
      bound = omega (arith, v.bound, length-without c.heap k e c.eviction found);
    }

  pub get_element-IsValid :
      (now : ℕ) (k : Bytes) (e : ℕ)
      → find_ref c.heap k c.eviction ≡ some e
      → IsValid (get_element now e c).1
  unfolding get_element
  get_element-IsValid now k e found = elim (Bool-cases (ltb (c.heap e).expires_at now)) [
    | inl late ↦ rw late (remove_element-IsValid k e found)
    | inr early ↦ rw (early, front k e found) (moved-IsValid k e found)
  ]

  pub update_entry-IsValid :
      (now : ℕ) (card : Card) (k : Bytes) (e : ℕ)
      → find_ref c.heap k c.eviction ≡ some e
      → IsValid (update_entry now e card c)
  unfolding update_entry
  update_entry-IsValid now card k e found =
      let m = moved-IsValid k e found in
      let h = write e (record (c.heap e) { card = card; expires_at = now + c.ttl }) c.heap in
      let same : (j : ℕ) → (h j).key ≡ (c.heap j).key = λ j. ground arith in
      rw (front k e found) (record {
        index = λ j.
            m.index j
            ∙ sym (
                find_ref-heap c.heap h j (e ∷ without e c.eviction)
                  (all_of same (e ∷ without e c.eviction)));
        once =
            KeysOnce-heap c.heap h (e ∷ without e c.eviction)
              (all_of same (e ∷ without e c.eviction)) m.once;
        fresh = m.fresh;
        keyed = m.keyed;
        count = m.count;
        bound = m.bound;
      })

  pub push_entry-IsValid :
      (now : ℕ) (k : Bytes) (card : Card)
      → find_ref c.heap k c.eviction ≡ none
      → suc (length c.eviction) ≤ max 1 c.max_size
      → IsValid (push_entry now k card c)
  unfolding push_entry find_ref
  push_entry-IsValid now k card absent room =
      let entry : CacheEntry Card = record { card = card; expires_at = now + c.ttl; key = k } in
      let h = write c.next entry c.heap in
      let new : h c.next ≡ entry = if_pos (ℕ_discrete c.next c.next) refl entry (c.heap c.next) in
      let keys : All (λ e. (h e).key ≡ (c.heap e).key) c.eviction =
        All-imp (λ e q i. (q i).key) c.eviction
          (write-fresh c.next entry c.heap c.eviction v.fresh) in
      let one : ℕ → ℕ = λ x. 1 in
      record {
        index = λ j. ground (
          arith,
          lookup-insert Bytes-discrete k j c.next c.items,
          v.index j,
          new,
          find_ref-heap c.heap h j c.eviction keys,
        );
        once = (
          find_ref-heap c.heap h (h c.next).key c.eviction keys
              ∙ ap (λ x. find_ref c.heap x.key c.eviction) new
              ∙ absent,
          KeysOnce-heap c.heap h c.eviction keys v.once,
        );
        fresh = (omega arith, All-imp (λ e q. omega arith) c.eviction v.fresh);
        keyed = insert-Unique Bytes-discrete k c.next c.items v.keyed;
        count = ground (
          arith,
          v.count,
          v.index k,
          absent,
          total-insert Bytes-discrete one k c.next c.items,
          length-total c.items,
          length-total (insert Bytes-discrete k c.next c.items),
        );
        bound = room;
      }

  pub evict_oldest-IsValid : IsValid (evict_oldest c)
  unfolding evict_oldest
  evict_oldest-IsValid = elim (Option-cases (back c.eviction)) [
    | inl e ↦ rw e v
    | inr (e, h) ↦
        rw h (remove_element-IsValid (c.heap e).key e (back-found c.heap e c.eviction v.once h).0)
  ]

pub clear-IsValid : {Card : Type 0} (c : LruCache Card) → IsValid (clear c)
unfolding clear lookup find_ref
clear-IsValid c = record {
  index = λ k. refl;
  once = tt;
  fresh = tt;
  keyed = tt;
  count = refl;
  bound = omega arith;
}
