-- ===== src/Store.antt =====
-- internal/store: the three stores over one pool of connections.
pub mod Deliveries
pub mod Actions
pub mod Sources
pub mod Keeping
pub mod Inversion
pub mod Keys
pub mod Creation
pub mod References
pub mod Values
