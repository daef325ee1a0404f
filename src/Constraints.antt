-- ===== src/Constraints.antt =====
-- Constraints: flight_blender/repositories/constraint_repo.py and its tables
-- (models/constraint_orm.py).
pub mod Tables
pub mod Schema
pub mod Repository
pub mod Writes
pub mod Keeping
pub mod Lookups
pub mod Examples
