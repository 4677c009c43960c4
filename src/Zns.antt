-- ===== src/Zns.antt =====
-- internal/zns: the naming service's handles, agent names and fully qualified agent names.
pub mod Name
pub mod Fqan
