-- ===== src/Cards/Lru.antt =====
-- internal/card/cache.go: `LRUCache`. A `*list.Element` is a number, the heap gives its entry, which stays
-- readable when the element has left the list. Each function is what one lock covers; `get` and `run`
-- compose them as calls that do not overlap.
pub mod Elements
pub mod Invariant
pub mod Recency
pub mod Race
use agent_dns.Prelude.{
  ℕ, zero, suc, ◌+◌, ◌*◌, ◌≤◌, ltb, leb, List, [], ◌∷◌, Option, none, some, ite, Bytes,
  Bytes-discrete, ℕ_discrete, length, if◌then◌else◌, Bool, true, false,
}
use agent_dns.Prelude.Assoc.{lookup, insert, erase}

pub record CacheEntry (Card : Type 0) : Type 0 where
  pub card : Card
  pub expires_at : ℕ
  pub key : Bytes

pub record LruCache (Card : Type 0) : Type 0 where
  pub max_size : ℕ
  pub ttl : ℕ
  pub items : List (Bytes × ℕ)
  pub eviction : List ℕ
  pub heap : ℕ → CacheEntry Card
  pub next : ℕ

-- The entry that a heap gives outside of its elements is never read.
unfoldable pub new_lru_cache : {Card : Type 0} → CacheEntry Card → ℕ → ℕ → LruCache Card
new_lru_cache nil max_size ttl_seconds = record {
  max_size = max_size;
  ttl = ttl_seconds * 1000000000;
  items = [];
  eviction = [];
  heap = λ e. nil;
  next = 0;
}

abbrev pub write {ℓ} : {A : Type ℓ} → ℕ → A → (ℕ → A) → ℕ → A
write e a heap j = ite (ℕ_discrete e j) a (heap j)

-- `list.Remove`: an element that is not in the list changes nothing.
unfoldable pub without : ℕ → List ℕ → List ℕ
unfolding ℕ_discrete
without e [] = []
without e (x ∷ xs) = ite (ℕ_discrete e x) xs (x ∷ without e xs)

abbrev pub is_listed : ℕ → List ℕ → Bool
is_listed e [] = false
is_listed e (x ∷ xs) = ite (ℕ_discrete e x) true (is_listed e xs)

-- `list.MoveToFront`, which looks first whether the element is in the list.
unfoldable pub move_to_front : ℕ → List ℕ → List ℕ
unfolding without is_listed
move_to_front e xs = if is_listed e xs then e ∷ without e xs else xs

-- `list.Back`
unfoldable pub back : List ℕ → Option ℕ
back [] = none
back (x ∷ []) = some x
back (x ∷ y ∷ xs) = back (y ∷ xs)

unfoldable pub remove_element : {Card : Type 0} → ℕ → LruCache Card → LruCache Card
unfolding without erase
remove_element e c = record c {
  eviction = without e c.eviction;
  items = erase Bytes-discrete (c.heap e).key c.items;
}

-- The first critical section of `Get`.
unfoldable pub find_element : {Card : Type 0} → Bytes → LruCache Card → Option ℕ
unfolding lookup
find_element agent_id c = lookup Bytes-discrete agent_id c.items

-- `Get` from where it has an element.
unfoldable pub get_element : {Card : Type 0} → ℕ → ℕ → LruCache Card → Option Card × LruCache Card
unfolding remove_element move_to_front
get_element now e c =
    let entry = c.heap e in
    if ltb entry.expires_at now
    then (none, remove_element e c)
    else (some entry.card, record c { eviction = move_to_front e c.eviction })

abbrev pub get_found : {Card : Type 0} → ℕ → Option ℕ → LruCache Card → Option Card × LruCache Card
unfolding get_element
get_found now none c = (none, c)
get_found now (some e) c = get_element now e c

unfoldable pub get : {Card : Type 0} → ℕ → Bytes → LruCache Card → Option Card × LruCache Card
unfolding find_element get_found
get now agent_id c = get_found now (find_element agent_id c) c

abbrev pub remove_if_some : {Card : Type 0} → Option ℕ → LruCache Card → LruCache Card
unfolding remove_element
remove_if_some none c = c
remove_if_some (some e) c = remove_element e c

unfoldable pub evict_oldest : {Card : Type 0} → LruCache Card → LruCache Card
unfolding back remove_if_some
evict_oldest c = remove_if_some (back c.eviction) c

-- `Put` on a key that has no element.
unfoldable pub push_entry : {Card : Type 0} → ℕ → Bytes → Card → LruCache Card → LruCache Card
unfolding insert write
push_entry now agent_id card c = record c {
  heap = write c.next (record { card = card; expires_at = now + c.ttl; key = agent_id }) c.heap;
  eviction = c.next ∷ c.eviction;
  items = insert Bytes-discrete agent_id c.next c.items;
  next = suc c.next;
}

unfoldable pub update_entry : {Card : Type 0} → ℕ → ℕ → Card → LruCache Card → LruCache Card
unfolding move_to_front write
update_entry now e card c = record c {
  heap = write e (record (c.heap e) { card = card; expires_at = now + c.ttl }) c.heap;
  eviction = move_to_front e c.eviction;
}

abbrev pub put_found : {Card : Type 0} → ℕ → Bytes → Card → Option ℕ → LruCache Card → LruCache Card
unfolding push_entry update_entry evict_oldest
put_found now agent_id card (some e) c = update_entry now e card c
put_found now agent_id card none c =
    push_entry now agent_id card (if leb c.max_size (length c.eviction) then evict_oldest c else c)

unfoldable pub put : {Card : Type 0} → ℕ → Bytes → Card → LruCache Card → LruCache Card
unfolding find_element put_found
put now agent_id card c = put_found now agent_id card (find_element agent_id c) c

unfoldable pub remove : {Card : Type 0} → Bytes → LruCache Card → LruCache Card
unfolding find_element remove_if_some
remove agent_id c = remove_if_some (find_element agent_id c) c

unfoldable pub len : {Card : Type 0} → LruCache Card → ℕ
len c = length c.items

unfoldable pub clear : {Card : Type 0} → LruCache Card → LruCache Card
clear c = record c { items = []; eviction = [] }
