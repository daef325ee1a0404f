-- ===== src/Surveillance/SensorMetrics.antt =====
-- The metrics of sensors: `_calculate_sensor_health_metrics` and `_calculate_aggregate_health_metrics`.
-- Durations are microseconds, averages hundredths of a second.
use flight_blender.Prelude.{
  ℕ, ℤ, pos, ◌*◌, ◌-◌, ◌+ℤ◌, sub_ℕ, round_div_ℤ, Bool, false, Option, none, some, String, List, [],
  ◌∷◌, ◌++◌, if◌then◌else◌, length, select, map, is_empty, str_eq,
}
use flight_blender.Surveillance.Tables.{HealthTracking, SurveillanceDb}
use flight_blender.Surveillance.Repository.{
  is_failure, get_health_tracking_records_for_sensor, get_sensor_status_before_time,
}

pub record SensorHealthMetrics : Type 0 where
  pub sensor_id : ℕ
  pub sensor_identifier : String
  pub mttr_seconds : Option ℤ
  pub auto_recovery_time_seconds : Option ℤ
  pub mtbf_with_auto_recovery_seconds : Option ℤ
  pub mtbf_without_auto_recovery_seconds : Option ℤ
  pub failure_count : ℕ
  pub auto_recovery_count : ℕ
  pub manual_recovery_count : ℕ
  pub window_start : ℕ
  pub window_end : ℕ

-- The variables of the loop.
pub record Scan : Type 0 where
  pub current_failure_onset : Option ℕ
  pub operational_start : Option ℕ
  pub recovery_durations : List ℤ
  pub auto_recovery_durations : List ℤ
  pub operational_intervals : List (ℤ × Option String)

abbrev pub is_operational : String → Bool
is_operational s = str_eq s "operational"

abbrev pub is_type : String → Option String → Bool
is_type k none = false
is_type k (some t) = str_eq t k

-- `intervals[-1] = (intervals[-1][0], recovery_type)`, where there is one
abbrev pub label_last : Option String → List (ℤ × Option String) → List (ℤ × Option String)
label_last t [] = []
label_last t ((d, u) ∷ []) = (d, t) ∷ []
label_last t (i ∷ j ∷ is) = i ∷ label_last t (j ∷ is)

unfoldable pub initial_scan : ℕ → Option String → Scan
initial_scan start_time pre_window_status =
    let nothing : Scan = record {
      current_failure_onset = none;
      operational_start = none;
      recovery_durations = [];
      auto_recovery_durations = [];
      operational_intervals = [];
    } in
    elim pre_window_status [
      | none ↦ nothing
      | some s ↦
          if is_failure s
          then record nothing { current_failure_onset = some start_time }
          else if is_operational s
          then record nothing { operational_start = some start_time }
          else nothing
    ]

-- A record of a failure.
abbrev fail_at : ℕ → Scan → Scan
fail_at t s = elim s.current_failure_onset [
  | some onset ↦ s
  | none ↦ record s {
    operational_intervals = elim s.operational_start [
      | none ↦ s.operational_intervals
      | some begun ↦ s.operational_intervals ++ (sub_ℕ t begun, none) ∷ []
    ];
    current_failure_onset = some t;
    operational_start = none;
  }
]

-- A record of the operational state.
abbrev pub recover_at : ℕ → Option String → Scan → Scan
recover_at t recovery_type s = elim s.current_failure_onset [
  | some onset ↦ record s {
    recovery_durations = s.recovery_durations ++ sub_ℕ t onset ∷ [];
    auto_recovery_durations =
        if is_type "automatic" recovery_type
        then s.auto_recovery_durations ++ sub_ℕ t onset ∷ []
        else s.auto_recovery_durations;
    operational_start = some t;
    current_failure_onset = none;
    operational_intervals = label_last recovery_type s.operational_intervals;
  }
  | none ↦ record s {
    operational_start = elim s.operational_start [ none ↦ some t | some begun ↦ some begun ];
  }
]

unfoldable pub scan_record : HealthTracking → Scan → Scan
scan_record r s =
    if is_failure r.status
    then fail_at r.recorded_at s
    else if is_operational r.status
    then recover_at r.recorded_at r.recovery_type s
    else s

unfoldable pub scan : List HealthTracking → Scan → Scan
scan [] s = s
scan (r ∷ rs) s = scan rs (scan_record r s)

abbrev pub sum : List ℤ → ℤ
sum [] = pos 0
sum (d ∷ ds) = d +ℤ sum ds

-- `round(sum(values) / len(values), 2) if values else None`, of values in microseconds and of values in
-- hundredths of a second
unfoldable pub average_duration : List ℤ → Option ℤ
average_duration ds = if is_empty ds then none else some (round_div_ℤ (sum ds) (length ds * 10000))

unfoldable pub avg : List ℤ → Option ℤ
avg values = if is_empty values then none else some (round_div_ℤ (sum values) (length values))

abbrev pub intervals_of : String → List (ℤ × Option String) → List ℤ
intervals_of k is = map (λ i. i.0) (select (λ i. is_type k i.1) is)

unfoldable pub metrics_of : ℕ → String → ℕ → ℕ → Scan → SensorHealthMetrics
unfolding average_duration
metrics_of sensor_id sensor_identifier start_time end_time s = record {
  sensor_id = sensor_id;
  sensor_identifier = sensor_identifier;
  mttr_seconds = average_duration s.recovery_durations;
  auto_recovery_time_seconds = average_duration s.auto_recovery_durations;
  mtbf_with_auto_recovery_seconds =
      average_duration (intervals_of "automatic" s.operational_intervals);
  mtbf_without_auto_recovery_seconds =
      average_duration (intervals_of "manual" s.operational_intervals);
  failure_count = length s.recovery_durations;
  auto_recovery_count = length s.auto_recovery_durations;
  manual_recovery_count = length s.recovery_durations - length s.auto_recovery_durations;
  window_start = start_time;
  window_end = end_time;
}

unfoldable pub calculate_sensor_health_metrics :
    ℕ → String → ℕ → ℕ → SurveillanceDb → SensorHealthMetrics
unfolding initial_scan scan metrics_of
calculate_sensor_health_metrics sensor_id sensor_identifier start_time end_time db =
    metrics_of sensor_id sensor_identifier start_time end_time (
      scan (get_health_tracking_records_for_sensor sensor_id start_time end_time db)
        (initial_scan start_time (get_sensor_status_before_time sensor_id start_time db)))

pub record AggregateHealthMetrics : Type 0 where
  pub avg_mttr_seconds : Option ℤ
  pub avg_auto_recovery_time_seconds : Option ℤ
  pub avg_mtbf_with_auto_recovery_seconds : Option ℤ
  pub avg_mtbf_without_auto_recovery_seconds : Option ℤ
  pub total_sensors : ℕ
  pub window_start : ℕ
  pub window_end : ℕ

abbrev present : List (Option ℤ) → List ℤ
present [] = []
present (o ∷ os) = elim o [ none ↦ present os | some v ↦ v ∷ present os ]

unfoldable pub calculate_aggregate_health_metrics :
    List SensorHealthMetrics → ℕ → ℕ → Option AggregateHealthMetrics
unfolding avg
calculate_aggregate_health_metrics ms start_time end_time =
    if is_empty ms
    then none
    else some (record {
      avg_mttr_seconds = avg (present (map (λ m. m.mttr_seconds) ms));
      avg_auto_recovery_time_seconds = avg (present (map (λ m. m.auto_recovery_time_seconds) ms));
      avg_mtbf_with_auto_recovery_seconds =
          avg (present (map (λ m. m.mtbf_with_auto_recovery_seconds) ms));
      avg_mtbf_without_auto_recovery_seconds =
          avg (present (map (λ m. m.mtbf_without_auto_recovery_seconds) ms));
      total_sensors = length ms;
      window_start = start_time;
      window_end = end_time;
    })
