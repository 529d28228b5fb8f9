-- ===== src/Worker/Attempted.antt =====
-- The fan-out of processDelivery, to its end: no action is forgotten.
pub mod Fresh
pub mod Loop
pub mod Plan
pub mod Retried
pub mod Recorded
