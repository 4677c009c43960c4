-- ===== src/Tests/Cards.antt =====
-- Runs on the cache of agent cards.
use agent_dns.Cards.Lru.{CacheEntry, LruCache, new_lru_cache, find_element, push_entry}
use agent_dns.Cards.Lru.Elements.{find_ref, drop_key, held, init}
use agent_dns.Cards.Lru.Invariant.{IsValid, new_lru_cache-IsValid, push_entry-IsValid}
use agent_dns.Cards.Lru.Race.{raced, raced_lem}
use agent_dns.Cards.Lru.Recency.{Call, Reply, replies, promised, promise, replies-new_lru_cache}
use agent_dns.Prelude.{
  ℕ, ◌*◌, ◌<◌, ◌≡◌, refl, none, some, List, [], ◌∷◌, Bytes-discrete, ℕ_discrete, codes, arith,
}
use agent_dns.Prelude.Assoc.{lookup, insert}

-- Cards are numbers.
abbrev nil : CacheEntry ℕ
nil = record { card = 0; expires_at = 0; key = [] }

abbrev second : ℕ
second = 1000000000

-- Two cards in a cache of one, and a read behind the time to live of ten seconds.
abbrev calls : List (Call ℕ)
calls =
    Call.putting 0 (codes "a") 7
    ∷ Call.getting second (codes "a")
    ∷ Call.putting (2 * second) (codes "b") 8
    ∷ Call.getting (3 * second) (codes "a")
    ∷ Call.getting (13 * second) (codes "b")
    ∷ Call.counting
    ∷ []

replies-new_lru_cache_example :
    replies calls (new_lru_cache nil 1 10)
    ≡ promised calls (record { max_size = 1; ttl = 10 * 1000000000; entries = [] })
replies-new_lru_cache_example = replies-new_lru_cache nil 1 10 calls

promised_run :
    promised calls (record { max_size = 1; ttl = 10 * 1000000000; entries = [] })
    ≡ Reply.done
      ∷ Reply.answer (some 7)
      ∷ Reply.done
      ∷ Reply.answer none
      ∷ Reply.answer none
      ∷ Reply.size 0
      ∷ []
unfolding promised promise drop_key held init Bytes-discrete ℕ_discrete
promised_run = refl

abbrev small : LruCache ℕ
small = new_lru_cache nil 2 10

abbrev one_card : LruCache ℕ
one_card = push_entry 0 (codes "a") 7 small

one_card-IsValid : IsValid one_card
unfolding new_lru_cache find_ref
one_card-IsValid =
    push_entry-IsValid small (new_lru_cache-IsValid nil 2 10) 0 (codes "a") 7 refl (omega arith)

found : find_element (codes "a") one_card ≡ some 0
unfolding find_element push_entry new_lru_cache lookup insert Bytes-discrete ℕ_discrete
found = refl

late : (one_card.heap 0).expires_at < 11 * second
unfolding push_entry new_lru_cache ℕ_discrete
late = omega arith

raced_lem_example :
    (find_element (codes "a") (raced (11 * second) (codes "a") 0 9 one_card) ≡ none)
    × (find_ref
          (raced (11 * second) (codes "a") 0 9 one_card).heap
          (codes "a")
          (raced (11 * second) (codes "a") 0 9 one_card).eviction
        ≡ some one_card.next)
    × (((raced (11 * second) (codes "a") 0 9 one_card).heap one_card.next).card ≡ 9)
raced_lem_example = raced_lem one_card one_card-IsValid (codes "a") 0 found (11 * second) 9 late
