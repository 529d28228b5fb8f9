-- ===== src/Tests.antt =====
-- A small installation, on which the code is run and the theorems are applied.
pub mod Setup
mod Fanning
mod Examples
mod Processing
mod Sending
mod Ingesting
mod Pages
mod Router
mod Serving
mod Forwarding
mod Starting
