-- ===== src/Repositories.antt =====
-- The repository classes (flight_blender/repositories/), a module for each.
pub mod Tables
pub mod Lookup
pub mod Writes
pub mod Keys
pub mod ReferenceKeys
pub mod Integrity
pub mod Windows
pub mod References
pub mod Declarations
pub mod Serialize
pub mod Conformance
pub mod GeoFences
mod Examples
pub mod Upserts
