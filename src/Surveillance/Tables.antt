-- ===== src/Surveillance/Tables.antt =====
-- The tables of surveillance (models/surveillance_orm.py), without the ids that are drawn at random
-- and the columns that no code reads. Times are microseconds since the epoch.
use flight_blender.Prelude.{ℕ, Bool, Option, String, List}

-- `SurveillanceSensorORM`
pub record Sensor : Type 0 where
  pub id : ℕ
  pub sensor_type : ℕ
  pub sensor_identifier : String
  pub is_active : Bool
  pub expected_latency_ms : ℕ
  pub horizontal_accuracy_m : ℕ
  pub created_at : ℕ
  pub updated_at : ℕ

-- `SurveillanceSensorHealthORM`
pub record SensorHealth : Type 0 where
  pub sensor_id : ℕ
  pub status : String
  pub updated_at : ℕ

-- `SurveillanceSensorHealthTrackingORM`
pub record HealthTracking : Type 0 where
  pub sensor_id : ℕ
  pub status : String
  pub recorded_at : ℕ
  pub recovery_type : Option String

-- `SurveillanceSensorFailureNotificationORM`
pub record FailureNotification : Type 0 where
  pub sensor_id : ℕ
  pub previous_status : String
  pub new_status : String
  pub recovery_type : Option String
  pub message : String
  pub created_at : ℕ

-- `SurveillanceSessionORM`
pub record Session : Type 0 where
  pub id : ℕ
  pub valid_until : ℕ

-- `SurveillanceHeartbeatEventORM`
pub record HeartbeatEvent : Type 0 where
  pub session_id : ℕ
  pub dispatched_at : ℕ
  pub expected_at : ℕ
  pub delivered_on_time : Bool

-- `SurveillanceTrackEventORM`
pub record TrackEvent : Type 0 where
  pub session_id : ℕ
  pub dispatched_at : ℕ
  pub expected_at : ℕ
  pub had_active_tracks : Bool

pub record SurveillanceDb : Type 0 where
  pub sensors : List Sensor
  pub healths : List SensorHealth
  pub trackings : List HealthTracking
  pub notifications : List FailureNotification
  pub sessions : List Session
  pub heartbeats : List HeartbeatEvent
  pub tracks : List TrackEvent
