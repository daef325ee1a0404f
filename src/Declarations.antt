-- ===== src/Declarations.antt =====
-- The flight declaration service (flight_blender/services/flight_declarations_svc.py).
pub mod Viewport
pub mod Requests
pub mod Validation
pub mod Intents
pub mod Unreadable
pub mod Creation
pub mod Outcomes
pub mod Bulk
pub mod Updates
pub mod Intersections
pub mod Rejection
pub mod Paging
mod Examples
pub mod Converter
pub mod SetIntent
pub mod IntentOutcomes
mod IntentExamples
