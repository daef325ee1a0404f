-- ===== src/Surveillance/Repository.antt =====
-- `SQLAlchemySurveillanceRepository` (repositories/surveillance_repo.py). A query is a function of
-- the tables; a write returns its result and the new tables. `now` is the time that a default of a
-- column or `datetime.now` reads.
use flight_blender.Prelude.{
  ℕ, Bool, true, false, ◌&&◌, ◌||◌, Option, none, some, String, List, [], ◌∷◌, ◌++◌, ◌==◌, leb, ltb,
  if◌then◌else◌, find, select, any, is_some, str_eq, append_text,
}
use flight_blender.Repositories.Tables.{order_by, order_by_desc, set_where, delete_where}
use flight_blender.Surveillance.Tables.{
  Sensor, SensorHealth, HealthTracking, FailureNotification, Session, HeartbeatEvent, TrackEvent,
  SurveillanceDb,
}

abbrev pub Write : Type 0 → Type 0
Write A = SurveillanceDb → A × SurveillanceDb

abbrev pub is_between : ℕ → ℕ → ℕ → Bool
is_between start_time end_time t = leb start_time t && leb t end_time

unfoldable pub get_active_surveillance_sensors : SurveillanceDb → List Sensor
get_active_surveillance_sensors db = select (λ s. s.is_active) db.sensors

unfoldable pub get_sensor_by_id : ℕ → SurveillanceDb → Option Sensor
get_sensor_by_id sensor_id db = find (λ s. s.id == sensor_id) db.sensors

unfoldable pub get_session_by_id : ℕ → SurveillanceDb → Option Session
get_session_by_id session_id db = find (λ s. s.id == session_id) db.sessions

-- The flush is refused only where the id is taken, which is tested first.
unfoldable pub create_session : ℕ → ℕ → Write Bool
unfolding get_session_by_id
create_session session_id valid_until db =
    if is_some (get_session_by_id session_id db) then (false, db) else (
      true,
      record db {
        sessions = db.sessions ++ record { id = session_id; valid_until = valid_until } ∷ [];
      },
    )

-- The events of a session go with it (`cascade="all, delete-orphan"`).
unfoldable pub delete_session : ℕ → SurveillanceDb → SurveillanceDb
unfolding get_session_by_id
delete_session session_id db =
    if is_some (get_session_by_id session_id db)
    then record db {
      sessions = delete_where (λ s. s.id == session_id) db.sessions;
      heartbeats = delete_where (λ e. e.session_id == session_id) db.heartbeats;
      tracks = delete_where (λ e. e.session_id == session_id) db.tracks;
    }
    else db

unfoldable pub get_all_active_sessions : ℕ → SurveillanceDb → List Session
get_all_active_sessions now db = select (λ s. leb now s.valid_until) db.sessions

unfoldable pub get_sessions_with_events_in_window : ℕ → ℕ → SurveillanceDb → List Session
get_sessions_with_events_in_window start_time end_time db =
    select
      (λ s.
        any (λ e. e.session_id == s.id && is_between start_time end_time e.dispatched_at)
          db.heartbeats
        || any (λ e. e.session_id == s.id && is_between start_time end_time e.dispatched_at)
            db.tracks)
      db.sessions

-- A sensor has one row at most: the column is unique.
unfoldable pub get_sensor_health_record : ℕ → SurveillanceDb → Option SensorHealth
get_sensor_health_record sensor_id db = find (λ h. h.sensor_id == sensor_id) db.healths

unfoldable pub get_health_tracking_records_for_sensor :
    ℕ → ℕ → ℕ → SurveillanceDb → List HealthTracking
get_health_tracking_records_for_sensor sensor_id start_time end_time db =
    order_by (λ r. r.recorded_at)
      (select (λ r. r.sensor_id == sensor_id && is_between start_time end_time r.recorded_at)
        db.trackings)

unfoldable pub get_sensor_status_before_time : ℕ → ℕ → SurveillanceDb → Option String
get_sensor_status_before_time sensor_id before_time db =
    elim (order_by_desc (λ r. r.recorded_at)
      (select (λ r. r.sensor_id == sensor_id && ltb r.recorded_at before_time) db.trackings)) [
        | [] ↦ none
        | r ∷ rs ↦ some r.status
      ]

unfoldable pub get_heartbeat_events_for_session : ℕ → ℕ → ℕ → SurveillanceDb → List HeartbeatEvent
get_heartbeat_events_for_session session_id start_time end_time db =
    order_by (λ e. e.dispatched_at)
      (select (λ e. e.session_id == session_id && is_between start_time end_time e.dispatched_at)
        db.heartbeats)

unfoldable pub get_track_events_for_session : ℕ → ℕ → ℕ → SurveillanceDb → List TrackEvent
get_track_events_for_session session_id start_time end_time db =
    order_by (λ e. e.dispatched_at)
      (select (λ e. e.session_id == session_id && is_between start_time end_time e.dispatched_at)
        db.tracks)

unfoldable pub get_failure_notifications_for_sensor :
    ℕ → ℕ → ℕ → SurveillanceDb → List FailureNotification
get_failure_notifications_for_sensor sensor_id start_time end_time db =
    order_by_desc (λ n. n.created_at)
      (select (λ n. n.sensor_id == sensor_id && is_between start_time end_time n.created_at)
        db.notifications)

unfoldable pub get_all_failure_notifications : ℕ → ℕ → SurveillanceDb → List FailureNotification
get_all_failure_notifications start_time end_time db =
    order_by_desc (λ n. n.created_at)
      (select (λ n. is_between start_time end_time n.created_at) db.notifications)

-- `new_status in ("degraded", "outage")`
abbrev pub is_failure : String → Bool
is_failure status = str_eq status "degraded" || str_eq status "outage"

-- `if recovery_type`: the empty text is falsy.
abbrev recovery_label : Option String → String
recovery_label none = ""
recovery_label (some t) = if str_eq t "" then "" else append_text " [" (append_text t " recovery]")

unfoldable pub message_for : Sensor → String → String → Option String → String
message_for sensor previous_status new_status recovery_type =
    let named = append_text "Sensor '" sensor.sensor_identifier in
    if is_failure new_status
    then append_text named (
        append_text "' entered "
          (append_text new_status (append_text " state (was " (append_text previous_status ")"))))
    else append_text named (
        append_text "' recovered to " (
          append_text new_status (
            append_text " (was "
              (append_text previous_status (append_text ")" (recovery_label recovery_type))))))

-- What a change adds: a row of the history and a notification.
unfoldable pub log_change :
    ℕ → ℕ → Sensor → String → String → Option String → SurveillanceDb → SurveillanceDb
log_change now sensor_id sensor previous_status new_status recovery_type db = record db {
  trackings =
      db.trackings
      ++ record {
        sensor_id = sensor_id;
        status = new_status;
        recorded_at = now;
        recovery_type = recovery_type;
      }
        ∷ [];
  notifications =
      db.notifications
      ++ record {
        sensor_id = sensor_id;
        previous_status = previous_status;
        new_status = new_status;
        recovery_type = recovery_type;
        message = message_for sensor previous_status new_status recovery_type;
        created_at = now;
      }
        ∷ [];
}

unfoldable pub update_sensor_health_status : ℕ → ℕ → String → Option String → Write Bool
unfolding get_sensor_by_id get_sensor_health_record log_change
update_sensor_health_status now sensor_id new_status recovery_type db =
    elim (get_sensor_by_id sensor_id db) [
      | none ↦ (false, db)
      | some sensor ↦ elim (get_sensor_health_record sensor_id db) [
        | none ↦ (
          true,
          log_change now sensor_id sensor new_status new_status recovery_type (record db {
            healths =
                db.healths
                ++ record { sensor_id = sensor_id; status = new_status; updated_at = now } ∷ [];
          }),
        )
        | some health ↦ if str_eq health.status new_status then (true, db) else (
          true,
          log_change now sensor_id sensor health.status new_status recovery_type (record db {
            healths =
                set_where (λ h. h.sensor_id == sensor_id)
                  (λ h. record h { status = new_status; updated_at = now }) db.healths;
          }),
        )
      ]
    ]

unfoldable pub record_heartbeat_event : ℕ → ℕ → ℕ → Bool → Write Bool
unfolding get_session_by_id
record_heartbeat_event now session_id expected_at delivered_on_time db =
    if is_some (get_session_by_id session_id db)
    then (
      true,
      record db {
        heartbeats =
            db.heartbeats
            ++ record {
              session_id = session_id;
              dispatched_at = now;
              expected_at = expected_at;
              delivered_on_time = delivered_on_time;
            }
              ∷ [];
      },
    )
    else (false, db)

unfoldable pub record_track_event : ℕ → ℕ → ℕ → Bool → Write Bool
unfolding get_session_by_id
record_track_event now session_id expected_at had_active_tracks db =
    if is_some (get_session_by_id session_id db)
    then (
      true,
      record db {
        tracks =
            db.tracks
            ++ record {
              session_id = session_id;
              dispatched_at = now;
              expected_at = expected_at;
              had_active_tracks = had_active_tracks;
            }
              ∷ [];
      },
    )
    else (false, db)
