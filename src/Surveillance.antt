-- ===== src/Surveillance.antt =====
-- The surveillance service (flight_blender/services/surveillance_svc.py), its repository
-- (repositories/surveillance_repo.py) and its periodic tasks (tasks/surveillance_task.py).
pub mod Tables
pub mod Repository
pub mod Health
pub mod Log
pub mod Refinement
pub mod Sessions
pub mod Starts
pub mod Expiry
pub mod Metrics
pub mod SensorMetrics
pub mod Tracks
pub mod Groups
pub mod Fusion
pub mod TrackExamples
pub mod Tiling
pub mod Probability
pub mod Service
mod Examples
