-- ===== src/Conformance/Examples.antt =====
-- The theorems on conformance at concrete operations.
use flight_blender.Prelude.{
  ◌≤◌, ◌∷◌, elem, length, str_eq, ℕ, pos, ◌≡◌, refl, ◌≢◌, ◌⊎◌, ◌↔◌, true, false, Option, none, some,
  String, List, [], ◌==◌, find, is_some, if◌then◌else◌, ◌+◌,
}
use flight_blender.Exceptions.{Exc, type_error, raise, ok}
use flight_blender.Json.{Json, arr, nil, cons}
use flight_blender.World.{World, Declaration, OpintReference, ConformanceRow}
use flight_blender.Repositories.Writes.{updated, tracked, recorded}
use flight_blender.Samples.{online, reference, boxes, square, operation, tables, flying}
use flight_blender.Conformance.States.{
  State, not_submitted, accepted, activated, nonconforming, contingent, ended, on_event, get_status,
  run, verify_operation_state_transition,
}
use flight_blender.Conformance.Lifecycle.{
  Transition, on_event-iff-Transition, verify-iff-Transition, can_reach, run-iff-can_reach,
}
use flight_blender.Conformance.Helper.{
  manage_operation_state_transition, handle_operation_ended, clear_and_stop,
  operation_ended_clear_dss,
}
use flight_blender.Conformance.Effects.{can_request}
use flight_blender.Conformance.Signals.{
  opint_verdict, telemetry_verdict, process_conformance_db_work, send,
  process_opint_reference_non_conformance_message, send_conformance_status_notification,
}
use flight_blender.Conformance.Checks.{state_code}
use flight_blender.Conformance.Task.{check_flight_conformance}
use flight_blender.Conformance.Periodic.{check_flight_conformance-keeps}
use flight_blender.Conformance.Receivers.{db_work-changes}
use flight_blender.Conformance.Engine.{
  is_time_between, PolygonAltitude, polygon_altitude, altitude_conformant, check_position,
  is_operation_conformant_via_telemetry, check_flight_operational_intent_reference_conformance,
}
use flight_blender.Conformance.Volumes.{cast_to_volume4d}
use flight_blender.Conformance.Authorisation.{IsLive, opint_check_iff}
use flight_blender.Conformance.Soundness.{IsConformant, telemetry-IsConformant, volumes_apart}
use flight_blender.Conformance.Verdicts.{opint_verdict-on_event}
use flight_blender.Conformance.Summary.{range, parse_date_range}

on_event-iff-Transition_example :
    Transition accepted "operator_activates" activated
    ↔ ((on_event accepted "operator_activates" ≡ activated) × (activated ≢ accepted))
on_event-iff-Transition_example = on_event-iff-Transition accepted activated "operator_activates"

verify-iff-Transition_example :
    (verify_operation_state_transition
        (get_status activated)
        (get_status ended)
        "operator_confirms_ended"
      ≡ ok true)
    ↔ (Transition activated "operator_confirms_ended" ended
        ⊎ ((ended ≡ activated)
            × ((u : State) → ¬ Transition activated "operator_confirms_ended" u)))
verify-iff-Transition_example = verify-iff-Transition activated ended "operator_confirms_ended"

run-iff-can_reach_example :
    ((es : List String) × (run not_submitted es ≡ contingent))
    ↔ (can_reach not_submitted contingent ≡ true)
run-iff-can_reach_example = run-iff-can_reach not_submitted contingent

-- The DSS is asked in the example, and it is not for a reference without a version: the handler raises.
asked_once : can_request (flying 5) 7 ≡ true
unfolding can_request
asked_once = refl

abbrev unversioned : World
unversioned = record (flying 5) {
  db = record (tables 5) { references = record reference { ovn = none } ∷ [] };
}

not_asked :
    manage_operation_state_transition online 7 2 5 "operator_confirms_ended" unversioned
    ≡ (raise type_error, unversioned)
unfolding manage_operation_state_transition handle_operation_ended clear_and_stop
    operation_ended_clear_dss
not_asked = refl

db_work-changes_example :
    let (r, w') =
      process_conformance_db_work online 300 7 6 "late" "checked"
        (some ("ua_departs_early_late", 3))
        (flying 2) in
    (w'.messages ≡ [])
    × (((r ≡ ok tt)
          × (w'.db
              ≡ (updated 7
                  (λ e. record e { state = 3 })
                  (tracked 7 2 3 "checked"
                    (recorded 300 7 6 "deviation" "late" false false (flying 2)))).db))
        ⊎ ((elem 3 (2 ∷ 5 ∷ 6 ∷ 7 ∷ []) ≡ true)
            × ((e : Exc) × (r ≡ raise e))
            × (w'.db ≡ (flying 2).db)))
db_work-changes_example =
    db_work-changes online 300 7 6 "late" "checked" (operation 2) (flying 2) refl
      "ua_departs_early_late" 3

-- The operation has ended, and the receiver sends the warning.
check_flight_conformance-keeps_example :
    let w' = (check_flight_conformance boxes online true 160 none 7 (flying 5)).1 in
    (w'.db ≡ (flying 5).db) × (w'.calls ≡ []) × (length w'.messages ≤ 0 + 1)
check_flight_conformance-keeps_example =
    check_flight_conformance-keeps boxes online 160 none 7 true (flying 5)

warned : length (check_flight_conformance boxes online true 160 none 7 (flying 5)).1.messages ≡ 1
unfolding check_flight_conformance check_flight_operational_intent_reference_conformance send
    process_opint_reference_non_conformance_message state_code opint_verdict
    send_conformance_status_notification
warned = refl

opint_check_iff_example :
    (check_flight_operational_intent_reference_conformance online 160 (tables 2) 7 ≡ 1) ↔ (
      ((true ≡ false)
        ⊎ (is_some (find (λ (r : OpintReference). r.declaration_id == 7) (tables 2).references)
            ≡ true))
      × ((d : Declaration) × (find (λ (e : Declaration). e.id == 7) (tables 2).declarations
            ≡ some d)
          × IsLive 160 d))
opint_check_iff_example = opint_check_iff online 160 (tables 2) 7

sample_conformant :
    is_operation_conformant_via_telemetry boxes 150
      (tables 2)
      "drone"
      (pos 5, pos 5)
      (pos 60)
      online
      7
    ≡ ok 100
unfolding is_operation_conformant_via_telemetry is_time_between check_position cast_to_volume4d
sample_conformant = refl

telemetry-IsConformant_example :
    (d : Declaration) × (find (λ (e : Declaration). e.id == 7) (tables 2).declarations ≡ some d)
    × ((true ≡ false)
        ⊎ (is_some (find (λ (r : OpintReference). r.declaration_id == 7) (tables 2).references)
            ≡ true))
    × IsConformant boxes 150 (tables 2) "drone" (pos 5, pos 5) (pos 60) d
telemetry-IsConformant_example =
    telemetry-IsConformant boxes 150 (tables 2) "drone" (pos 5, pos 5) (pos 60) online 7
      sample_conformant

abbrev outline : ℕ → ℕ → ℕ → ℕ → PolygonAltitude boxes
outline a b low high = record {
  outline = ((pos a, pos a), (pos b, pos b));
  altitude_upper = Json.num (pos high);
  altitude_lower = Json.num (pos low);
}

square_read : polygon_altitude boxes (square 0 10 0 50) ≡ ok (outline 0 10 0 50)
unfolding polygon_altitude cast_to_volume4d
square_read = refl

square_read' : polygon_altitude boxes (square 20 30 50 90) ≡ ok (outline 20 30 50 90)
unfolding polygon_altitude cast_to_volume4d
square_read' = refl

too_high : altitude_conformant boxes (pos 60) (outline 0 10 0 50) ≡ ok false
unfolding altitude_conformant
too_high = refl

fits : altitude_conformant boxes (pos 60) (outline 20 30 50 90) ≡ ok true
unfolding altitude_conformant
fits = refl

volumes_apart_example :
    check_position boxes []
      (arr (cons (square 0 10 0 50) (cons (square 20 30 50 90) nil)))
      (pos 5, pos 5)
      (pos 60)
    ≡ ok 100
volumes_apart_example =
    volumes_apart boxes (square 0 10 0 50) (square 20 30 50 90) (outline 0 10 0 50)
      (outline 20 30 50 90) (pos 5, pos 5) (pos 60) square_read square_read' refl too_high refl fits

abbrev c9a : String
c9a = "C9a"

abbrev c7b : String
c7b = "C7b"

timeout_verdict : (opint_verdict "C9a").change ≡ some ("timeout", 4)
unfolding opint_verdict
timeout_verdict = refl

times_out : get_status (on_event nonconforming "timeout") ≡ 4
unfolding get_status on_event
times_out = refl

opint_verdict-on_event_example :
    (get_status nonconforming ≡ 4) ⊎ ((nonconforming ≡ nonconforming) × (c9a ≡ "C9a"))
opint_verdict-on_event_example =
    opint_verdict-on_event c9a "timeout" 4 nonconforming timeout_verdict times_out

exit_verdict : (telemetry_verdict "C7b").change ≡ some ("ua_exits_coordinated_op_intent", 3)
unfolding telemetry_verdict
exit_verdict = refl

exits : get_status (on_event activated "ua_exits_coordinated_op_intent") ≡ 3
unfolding get_status on_event
exits = refl

abbrev read : String → Option ℕ
read s = if str_eq s "first" then some 1 else some 2

abbrev first : Option String
first = some "first"

abbrev second : Option String
second = some "second"

parsed : parse_date_range read first second ≡ range 1 2
unfolding parse_date_range
parsed = refl

abbrev breach : ConformanceRow
breach = record {
  flight_declaration_id = 7;
  conformance_state = 6;
  event_type = "deviation";
  description = "late";
  geofence_breach = false;
  resolved = false;
  created_at = 300;
}
