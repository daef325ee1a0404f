-- ===== src/Deconfliction.antt =====
-- The built-in de-confliction of a new declaration (flight_blender/services/deconfliction_engine.py,
-- flight_blender/utils/spatial_geo_fence.py, flight_blender/utils/spatial_flight_declarations.py).
pub mod Index
pub mod Fences
pub mod Engine
pub mod Verdict
pub mod Leftovers
mod Examples
