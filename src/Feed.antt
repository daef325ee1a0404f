-- ===== src/Feed.antt =====
-- The flight feed: flight_blender/services/flight_feed_svc.py, its repository
-- (repositories/flight_feed_repo.py) and its tasks (tasks/flight_feed_task.py).
pub mod Tables
pub mod Repository
pub mod Ingest
pub mod Stored
pub mod Readings
pub mod Latest
pub mod Gaps
pub mod Telemetry
pub mod Dispatches
pub mod Timestamps
mod Examples
