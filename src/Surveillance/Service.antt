-- ===== src/Surveillance/Service.antt =====
-- The listings of `SurveillanceOperations`: the metrics of a window and the notifications of sensors.
-- `read` is `arrow.get`, with `none` for a `ParserError`; an id in a request is parsed already.
use flight_blender.Prelude.{
  ℕ, ◌-◌, Option, none, some, String, List, [], ◌∷◌, if◌then◌else◌, length, map, str_eq,
  append_text,
}
use flight_blender.Surveillance.Tables.{Sensor, Session, FailureNotification, SurveillanceDb}
use flight_blender.Surveillance.Repository.{
  get_all_active_sessions, get_sessions_with_events_in_window, get_active_surveillance_sensors,
  get_failure_notifications_for_sensor, get_all_failure_notifications, get_sensor_by_id,
}
use flight_blender.Surveillance.Metrics.{
  HeartbeatRateMetric, HeartbeatDeliveryProbability, TrackUpdateProbability,
  calculate_heartbeat_rate, calculate_heartbeat_delivery_probability,
  calculate_track_update_probability,
}
use flight_blender.Surveillance.SensorMetrics.{
  SensorHealthMetrics, AggregateHealthMetrics, calculate_sensor_health_metrics,
  calculate_aggregate_health_metrics,
}

-- `text.replace(" ", "+")`
abbrev plus_for_space : String → String
plus_for_space String.[] = ""
plus_for_space (String.◌∷◌ c s) =
    let rest = plus_for_space s in
    let one = String.◌∷◌ c String.[] in append_text (if str_eq one " " then "+" else one) rest

abbrev pub one_week : ℕ
one_week = 604800000000

-- A bound of the window: the default where the text is absent or empty.
abbrev bound : (String → Option ℕ) → ℕ → Option String → Option ℕ
bound read default none = some default
bound read default (some t) = if str_eq t "" then some default else read (plus_for_space t)

abbrev both : Option ℕ → Option ℕ → Option (ℕ × ℕ)
both none e = none
both (some s) none = none
both (some s) (some e) = some (s, e)

-- The window of a request; `none` is the answer 400. The first week of 1970 is left out: there the
-- subtraction stops at 0.
unfoldable pub window : (String → Option ℕ) → ℕ → Option String → Option String → Option (ℕ × ℕ)
window read now start_date end_date =
    both (bound read (now - one_week) start_date) (bound read now end_date)

pub record SurveillanceMetrics : Type 0 where
  pub heartbeat_rates : List HeartbeatRateMetric
  pub heartbeat_delivery_probabilities : List HeartbeatDeliveryProbability
  pub track_update_probabilities : List TrackUpdateProbability
  pub per_sensor_health : List SensorHealthMetrics
  pub aggregate_health : Option AggregateHealthMetrics
  pub active_sessions : ℕ
  pub window_start : ℕ
  pub window_end : ℕ

unfoldable pub sessions_to_process : Option ℕ → ℕ → ℕ → SurveillanceDb → List ℕ
unfolding get_sessions_with_events_in_window
sessions_to_process (some session_id) start_time end_time db = session_id ∷ []
sessions_to_process none start_time end_time db =
    map (λ (s : Session). s.id) (get_sessions_with_events_in_window start_time end_time db)

unfoldable pub metrics_in_window :
    Option (ℕ → ℕ → ℕ) → ℕ → Option ℕ → ℕ → ℕ → SurveillanceDb → SurveillanceMetrics
unfolding get_all_active_sessions sessions_to_process
metrics_in_window observed now session_id start_time end_time db =
    let sids = sessions_to_process session_id start_time end_time db in
    let per_sensor =
      map
        (λ (s : Sensor).
          calculate_sensor_health_metrics s.id s.sensor_identifier start_time end_time db)
        (get_active_surveillance_sensors db) in
    record {
      heartbeat_rates = map (λ sid. calculate_heartbeat_rate sid start_time end_time db) sids;
      heartbeat_delivery_probabilities =
          map (λ sid. calculate_heartbeat_delivery_probability sid start_time end_time db) sids;
      track_update_probabilities =
          map (λ sid. calculate_track_update_probability observed sid start_time end_time) sids;
      per_sensor_health = per_sensor;
      aggregate_health = calculate_aggregate_health_metrics per_sensor start_time end_time;
      active_sessions = length (get_all_active_sessions now db);
      window_start = start_time;
      window_end = end_time;
    }

-- `none` is the answer 400.
unfoldable pub get_service_metrics :
    (String → Option ℕ)
    → Option (ℕ → ℕ → ℕ)
    → ℕ
    → Option String
    → Option String
    → Option ℕ
    → SurveillanceDb
    → Option SurveillanceMetrics
unfolding window metrics_in_window
get_service_metrics read observed now start_date end_date session_id db =
    elim (window read now start_date end_date) [
      | none ↦ none
      | some (s, e) ↦ some (metrics_in_window observed now session_id s e db)
    ]

-- A sensor that is not found is named by its id: `none`.
pub record NotificationDetail : Type 0 where
  pub notification : FailureNotification
  pub sensor_identifier : Option String

unfoldable pub detail_of : SurveillanceDb → FailureNotification → NotificationDetail
detail_of db n = record {
  notification = n;
  sensor_identifier = elim (get_sensor_by_id n.sensor_id db) [
    | none ↦ none
    | some sensor ↦ some sensor.sensor_identifier
  ];
}

unfoldable pub list_sensor_health_notifications :
    (String → Option ℕ)
    → ℕ
    → Option ℕ
    → Option String
    → Option String
    → SurveillanceDb
    → Option (List NotificationDetail)
unfolding window detail_of
list_sensor_health_notifications read now sensor_id start_date end_date db =
    elim (window read now start_date end_date) [
      | none ↦ none
      | some (s, e) ↦ some (
          map (detail_of db) (elim sensor_id [
            | none ↦ get_all_failure_notifications s e db
            | some id ↦ get_failure_notifications_for_sensor id s e db
          ]))
    ]
