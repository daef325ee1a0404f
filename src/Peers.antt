-- ===== src/Peers.antt =====
-- The operational intents of other USSs, as the repository keeps them
-- (flight_blender/repositories/flight_declarations_repo.py, the part on peers).
pub mod Tables
pub mod Writes
pub mod Latest
pub mod Composites
mod Examples
