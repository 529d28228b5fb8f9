-- ===== src/Handler.antt =====
-- internal/handler: the endpoints of the API.
pub mod Keeps
pub mod Ingest
pub mod Deliveries
pub mod Actions
pub mod Slug
pub mod Sources
