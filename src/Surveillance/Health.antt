-- ===== src/Surveillance/Health.antt =====
-- The health of the sensors in `SurveillanceOperations`: the overall status, and the change of one
-- sensor's status. A reply is the dictionary of the answer with the HTTP code.
use flight_blender.Prelude.{
  ℕ, Bool, not, ◌||◌, Option, none, some, String, List, [], ◌∷◌, if◌then◌else◌, any, all, is_empty,
  str_eq,
}
use flight_blender.Surveillance.Tables.{Sensor, SurveillanceDb}
use flight_blender.Surveillance.Repository.{
  Write, get_active_surveillance_sensors, get_sensor_health_record, is_failure,
  update_sensor_health_status,
}

-- `SurveillanceStatus`
pub data SurveillanceStatus : Type 0 where
  operational degraded outage : SurveillanceStatus

pub record HealthMessage : Type 0 where
  pub sdsp_identifier : String
  pub current_status : SurveillanceStatus
  pub machine_readable_file_of_estimated_coverage : String
  pub scheduled_degradations : String
  pub timestamp : ℕ

-- The statuses of the sensors that have one, in order.
unfoldable pub statuses_of : SurveillanceDb → List Sensor → List String
unfolding get_sensor_health_record
statuses_of db [] = []
statuses_of db (s ∷ ss) =
    let rest = statuses_of db ss in
    elim (get_sensor_health_record s.id db) [ none ↦ rest | some health ↦ health.status ∷ rest ]

unfoldable pub overall : List String → SurveillanceStatus
overall statuses =
    if is_empty statuses || all (λ s. str_eq s "outage") statuses
    then outage
    else if any is_failure statuses
    then degraded
    else operational

unfoldable pub get_health : ℕ → SurveillanceDb → HealthMessage
unfolding get_active_surveillance_sensors statuses_of overall
get_health now db = record {
  sdsp_identifier = "FLIGHT_BLENDER_SDSP";
  current_status = overall (statuses_of db (get_active_surveillance_sensors db));
  machine_readable_file_of_estimated_coverage = "";
  scheduled_degradations = "None";
  timestamp = now;
}

-- The dictionary of a reply. A text that names an id is kept without it, beside the id.
pub data Body : Type 0 where
  error : String → Body
  error_about : String → ℕ → Body
  status : String → Body
  updated : String → ℕ → String → Body

abbrev pub Reply : Type 0
Reply = Body × ℕ

unfoldable pub is_valid_status : String → Bool
is_valid_status s = str_eq s "operational" || str_eq s "degraded" || str_eq s "outage"

unfoldable pub is_valid_recovery_type : Option String → Bool
is_valid_recovery_type none = Bool.true
is_valid_recovery_type (some t) = str_eq t "automatic" || str_eq t "manual"

unfoldable pub update_sensor_health : ℕ → ℕ → String → Option String → Write Reply
update_sensor_health now sensor_id new_status recovery_type db =
    if not (is_valid_status new_status)
    then ((error "Invalid status. Must be one of: degraded, operational, outage", 400), db)
    else if not (is_valid_recovery_type recovery_type)
    then ((error "Invalid recovery_type. Must be 'automatic', 'manual', or omitted.", 400), db)
    else let (success, db') =
        update_sensor_health_status now sensor_id new_status recovery_type db in
      if success
      then ((updated "Sensor health updated" sensor_id new_status, 200), db')
      else ((error_about "Sensor not found or update failed" sensor_id, 404), db')
