-- ===== src/Conformance.antt =====
-- Conformance
pub mod States
pub mod Lifecycle
pub mod Summary
pub mod Rates
pub mod Task
pub mod Signals
pub mod Engine
pub mod Helper
pub mod Effects
pub mod Authorisation
pub mod Extents
pub mod Fencing
pub mod Soundness
pub mod Receivers
pub mod Periodic
pub mod Verdicts
pub mod Volumes
pub mod Checks
mod Examples
