-- ===== src/Worker.antt =====
-- internal/worker/fanout.go: the fan-out worker.
pub mod Env
pub mod Attempted
pub mod Backoff
pub mod RollUp
pub mod Process
pub mod Retry
pub mod Stream
pub mod Keeps
pub mod Dispatching
pub mod Budget
pub mod Jobs
pub mod Startup
pub mod Guards
pub mod Fates
