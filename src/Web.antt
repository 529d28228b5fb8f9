-- ===== src/Web.antt =====
-- web: the pages, up to the data of their templates.
pub mod Pages
pub mod Keeps
pub mod Forward
pub mod Sources
pub mod Scripts
pub mod Columns
pub mod Actions
pub mod Deliveries
