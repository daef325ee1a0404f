-- ===== src/Surveillance/Examples.antt =====
-- The theorems on surveillance at concrete tables and requests.
use flight_blender.Prelude.{
  leb, ◌&&◌, ◌==◌, ℕ, ◌+◌, ◌*◌, ◌≤◌, ◌≡◌, refl, Bool, true, false, some, none, List, [], ◌∷◌, arith,
  length,
}
use flight_blender.Repositories.Tables.{count, order_by_desc}
use flight_blender.Surveillance.Tables.{HeartbeatEvent, Sensor, HealthTracking, SurveillanceDb}
use flight_blender.Surveillance.Repository.{
  record_heartbeat_event, update_sensor_health_status, create_session, get_session_by_id,
  get_sensor_status_before_time,
}
use flight_blender.Surveillance.Health.{
  update_sensor_health, is_valid_status, is_valid_recovery_type,
}
use flight_blender.Surveillance.Sessions.{
  send_heartbeat, SessionWorld, start_surveillance_session, TaskName, send_heartbeat_to_consumer,
  seconds,
}
use flight_blender.Surveillance.Log.{IsConsistent, current}
use flight_blender.Surveillance.Refinement.{Change, run_changes, replay, is_known, run_refines}
use flight_blender.Surveillance.Starts.{
  started, Started, heartbeat_task, track_task, start-fresh, start-accepted, start_stop_start,
  restart-refused,
}
use flight_blender.Surveillance.Expiry.{Runs, Tick, run_next, none_left, run_task, started-expire}
use flight_blender.Surveillance.Metrics.{calculate_heartbeat_delivery_probability}
use flight_blender.Surveillance.Probability.{calculate_heartbeat_delivery_probability-bounds}

abbrev radar : Sensor
radar = record {
  id = 7;
  sensor_type = 5;
  sensor_identifier = "radar";
  is_active = true;
  expected_latency_ms = 150;
  horizontal_accuracy_m = 5;
  created_at = 0;
  updated_at = 0;
}

abbrev tables : SurveillanceDb
tables = record {
  sensors = radar ∷ [];
  healths = [];
  trackings = [];
  notifications = [];
  sessions = [];
  heartbeats = [];
  tracks = [];
}

abbrev tables-IsConsistent : IsConsistent tables
tables-IsConsistent = record { agrees = λ s. refl; announces = refl }

-- The radar goes down, an unknown sensor is named, and the radar recovers.
abbrev changes : List Change
changes =
    record { now = 10; sensor_id = 7; new_status = "outage"; recovery_type = none }
    ∷ record { now = 20; sensor_id = 8; new_status = "outage"; recovery_type = none }
    ∷ record { now = 30; sensor_id = 7; new_status = "operational"; recovery_type = some "manual" }
    ∷ []

run_refines_example :
    IsConsistent (run_changes changes tables)
    × ((s : ℕ)
        → current (run_changes changes tables).healths s
          ≡ replay (is_known tables) changes (current tables.healths) s)
run_refines_example = run_refines changes tables tables-IsConsistent

run_ends : current (run_changes changes tables).healths 7 ≡ some "operational"
unfolding run_changes update_sensor_health is_valid_status is_valid_recovery_type
    update_sensor_health_status
run_ends = refl

abbrev world : SessionWorld
world = record { db = tables; queue = []; stop_keys = [] }

abbrev only_heartbeats : TaskName → Bool
only_heartbeats name = elim name [ send_heartbeat_to_consumer ↦ true | _ ↦ false ]

abbrev all_tasks : TaskName → Bool
all_tasks name = true

fresh : get_session_by_id 3 tables ≡ none
unfolding get_session_by_id
fresh = refl

start-fresh_example :
    Started 3 none (heartbeat_task 100 3 ∷ []) 500 world (started only_heartbeats 100 3 world)
start-fresh_example = start-fresh only_heartbeats 100 3 world fresh

restart-refused_example :
    let (codes, w2, w3) = start_stop_start all_tasks 100 200 300 3 world in
    (codes ≡ (200, 200, 400)) × (w3 ≡ w2)
restart-refused_example = restart-refused all_tasks 100 200 300 3 world (λ name. refl) fresh

-- The worker takes the heartbeat task one second after the start, when it goes back to the queue, and
-- again two minutes after the start.
abbrev soon : Tick
soon = record { now = 1000100; dispatched = 1000101; published = true; tracked = false }

abbrev late : Tick
late = record { now = 120000100; dispatched = 120000101; published = true; tracked = false }

abbrev after_soon : SessionWorld
after_soon =
    run_task 1500000 soon (heartbeat_task 100 3)
      (record (started all_tasks 100 3 world).1 { queue = track_task 100 3 ∷ [] })

abbrev after_late : SessionWorld
after_late =
    run_task 1500000 late (heartbeat_task 100 3)
      (record after_soon { queue = track_task 100 3 ∷ [] })

soon_run : Runs 1500000 100 (started all_tasks 100 3 world).1 1 after_soon
soon_run =
    run_next [] (track_task 100 3 ∷ []) (heartbeat_task 100 3) soon
      (start-accepted all_tasks 100 3 world (λ name. refl) fresh).2 (omega arith) none_left

goes_back : after_soon.queue ≡ track_task 100 3 ∷ heartbeat_task 100 3 ∷ []
unfolding run_task send_heartbeat record_heartbeat_event start_surveillance_session create_session
goes_back = refl

late_run : Runs 1500000 (100 + seconds 60) after_soon 1 after_late
late_run =
    run_next (track_task 100 3 ∷ []) [] (heartbeat_task 100 3) late goes_back (omega arith)
      none_left

started-expire_example :
    (get_session_by_id 3 after_late.db ≡ some (record { id = 3; valid_until = 100 + seconds 1800 }))
    × (after_late.db ≡ after_soon.db)
    × (length after_late.queue + 1 ≤ 2)
started-expire_example =
    started-expire all_tasks 100 3 1500000 100 world (λ name. refl) fresh refl soon_run late_run

-- Failing since before the window; a manual recovery at 130 and an outage at 180.
abbrev history : List HealthTracking
history =
    record {
      sensor_id = 7;
      status = "operational";
      recorded_at = 130;
      recovery_type = some "manual";
    }
    ∷ record { sensor_id = 7; status = "outage"; recorded_at = 180; recovery_type = none }
    ∷ []

abbrev with_history : SurveillanceDb
with_history = record tables {
  trackings =
      record { sensor_id = 7; status = "outage"; recorded_at = 50; recovery_type = none } ∷ history;
  heartbeats =
      record { session_id = 3; dispatched_at = 110; expected_at = 110; delivered_on_time = true }
      ∷ record { session_id = 3; dispatched_at = 120; expected_at = 120; delivered_on_time = false }
      ∷ [];
}

before_window : get_sensor_status_before_time 7 100 with_history ≡ some "outage"
unfolding get_sensor_status_before_time order_by_desc
before_window = refl

calculate_heartbeat_delivery_probability-bounds_example :
    let m = calculate_heartbeat_delivery_probability 3 100 200 with_history in
    (m.total_expected
      ≡ count
          (λ (e : HeartbeatEvent).
            e.session_id == 3 && (leb 100 e.dispatched_at && leb e.dispatched_at 200))
          with_history.heartbeats)
    × (m.delivered_on_time
        ≡ count
            (λ (e : HeartbeatEvent).
              (e.session_id == 3 && (leb 100 e.dispatched_at && leb e.dispatched_at 200))
              && e.delivered_on_time)
            with_history.heartbeats)
    × (m.probability ≤ 1000000)
    × (2 * (m.probability * m.total_expected)
        ≤ 2 * (m.delivered_on_time * 1000000) + m.total_expected)
    × (2 * (m.delivered_on_time * 1000000)
        ≤ 2 * (m.probability * m.total_expected) + m.total_expected)
calculate_heartbeat_delivery_probability-bounds_example =
    calculate_heartbeat_delivery_probability-bounds 3 100 200 with_history
