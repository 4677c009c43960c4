-- ===== src/Cards.antt =====
-- internal/card: the cache of agent cards.
pub mod Lru
