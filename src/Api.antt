-- ===== src/Api.antt =====
-- internal/api: the middleware in front of the handlers.
pub mod Limits
pub mod Webhook
