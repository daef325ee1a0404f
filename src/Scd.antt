-- ===== src/Scd.antt =====
-- Strategic coordination: the parts of flight_blender/services/scd_svc.py and utils/scd_helpers.py
-- that decide without the DSS.
pub mod Registration
pub mod Checksum
pub mod Planning
pub mod Volumes
pub mod Plans
pub mod Dss
pub mod Closing
pub mod Closings
pub mod Dash
pub mod Shape
pub mod Examples
