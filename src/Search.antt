-- ===== src/Search.antt =====
-- internal/search: the keyword index.
pub mod Tokens
pub mod Keyword
pub mod Engine
pub mod Sources
pub mod Response
