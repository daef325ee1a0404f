-- ===== src/Conformance/Signals.antt =====
-- The receivers of the two non-conformance signals and the database work that they start
-- (flight_blender/services/conformance_svc.py), and `Signal.send` (services/signals.py). Of a text
-- of a notification the part is kept that does not name the operation, whose id the message has.
use flight_blender.Prelude.{
  ℕ, Bool, false, not, ◌||◌, Option, none, some, String, append_text, str_eq, if◌then◌else◌,
}
use flight_blender.Exceptions.{runtime_error, ok}
use flight_blender.Domain.{Settings}
use flight_blender.World.{Action, throw, lift, session, notify, ◌>>=◌, ◌>>◌}
use flight_blender.Repositories.Declarations.{get_by_id, add_state_history_entry, update}
use flight_blender.Repositories.Conformance.{create_conformance_record}
use flight_blender.Conformance.Checks.{state_code}
use flight_blender.Conformance.Helper.{done, manage_operation_state_transition}

-- What a receiver makes of a check that failed: the text, and the event with the new state. Where a
-- code has no branch the event stays falsy, and neither a notification nor a new state follows.
pub record Verdict : Type 0 where
  pub message : String
  pub change : Option (String × ℕ)

abbrev silent : Verdict
silent = record { message = ""; change = none }

abbrev verdict : String → String → ℕ → Verdict
verdict message event new_state = record { message = message; change = some (event, new_state) }

unfoldable pub telemetry_verdict : String → Verdict
telemetry_verdict code =
    if str_eq code "C3"
    then verdict
        "The aircraft ID provided in telemetry does not match the declared / authorized aircraft"
        "flight_blender_confirms_contingent" 4
    else if str_eq code "C4" || str_eq code "C5"
    then verdict "The state is not one of 'Accepted' or 'Activated', your authorization is invalid"
        "flight_blender_confirms_contingent" 3
    else if str_eq code "C6"
    then verdict
        "The telemetry timestamp provided is not within the start / end time for an operation"
        "ua_departs_early_late" 3
    else if str_eq code "C7a"
    then verdict "The telemetry timestamp provided is not within the altitude bounds"
        "ua_exits_coordinated_op_intent" 3
    else if str_eq code "C7b"
    then verdict
        "The telemetry location provided is not within the declared bounds for an operation"
        "ua_exits_coordinated_op_intent" 3
    else silent

unfoldable pub opint_verdict : String → Verdict
opint_verdict code =
    if str_eq code "C9a"
    then verdict "The telemetry has not been received in the past 15 seconds" "timeout" 4
    else if str_eq code "C9b"
    then verdict "The telemetry has never been received" "flight_blender_confirms_contingent" 4
    else if str_eq code "C10"
    then verdict "The authorization has been expired. You must stop operation"
        "flight_blender_confirms_contingent" 4
    else if str_eq code "C11"
    then verdict "There is no flight authorization" "flight_blender_confirms_contingent" 4
    else silent

-- `send_conformance_status_notification`: with no broker configured the text is only logged.
unfoldable pub send_conformance_status_notification :
    Settings → ℕ → String → String → Action (Unit {0})
send_conformance_status_notification settings id message level =
    if str_eq settings.amqp_url "" then done else notify id message level

-- `_process_telemetry_conformance_db_work` and `_process_opint_reference_conformance_db_work`, which
-- differ in the texts: a record of the failed check, and the new state with its history and handlers.
unfoldable pub process_conformance_db_work :
    Settings → ℕ → ℕ → ℕ → String → String → Option (String × ℕ) → Action (Unit {0})
process_conformance_db_work settings now id non_conformance_state description notes change =
    session (
      get_by_id id >>= λ found. elim found [
        | none ↦ done
        | some fd ↦
            create_conformance_record now fd.id non_conformance_state "deviation" description false
              false
            >> elim change [
              | none ↦ done
              | some (event, new_state) ↦
                  add_state_history_entry fd.id fd.state new_state notes
                  >> update fd.id (λ d. record d { state = new_state })
                  >> manage_operation_state_transition settings id fd.state new_state event
            ]
      ])

abbrev notify_verdict : Settings → ℕ → Verdict → Action (Unit {0})
notify_verdict settings id v = elim v.change [
  | none ↦ done
  | some _ ↦ send_conformance_status_notification settings id v.message "error"
]

-- `_run_signal_db_work`: outside of a loop the work is run to its end. In a running loop it is only
-- scheduled, and the loop of a periodic task, which has nothing more to wait for, cancels it when it
-- ends, before any of it has run.
unfoldable pub run_signal_db_work : Bool → Action (Unit {0}) → Action (Unit {0})
run_signal_db_work loop_running work = if loop_running then done else work

-- `process_telemetry_conformance_message`. `configured` says whether `set_conformance_deps` was
-- called: without it the receiver raises.
unfoldable pub process_telemetry_conformance_message :
    Settings → Bool → Bool → ℕ → ℕ → ℕ → Action (Unit {0})
unfolding run_signal_db_work
process_telemetry_conformance_message settings configured loop_running now id
      non_conformance_state =
    if not configured
    then throw runtime_error
    else (lift (state_code non_conformance_state) >>= λ code.
        let v = telemetry_verdict code in
        notify_verdict settings id v
        >> run_signal_db_work loop_running (
            process_conformance_db_work settings now id non_conformance_state v.message
              (append_text
                "State changed by telemetry conformance checks because of telemetry non-conformance: "
                code)
              v.change))

-- `process_flight_operational_intent_reference_non_conformance_message`
unfoldable pub process_opint_reference_non_conformance_message :
    Settings → Bool → Bool → ℕ → ℕ → ℕ → Action (Unit {0})
unfolding run_signal_db_work
process_opint_reference_non_conformance_message settings configured loop_running now id
      non_conformance_state =
    if not configured
    then throw runtime_error
    else (lift (state_code non_conformance_state) >>= λ code.
        let v = opint_verdict code in
        notify_verdict settings id v
        >> run_signal_db_work loop_running (
            process_conformance_db_work settings now id non_conformance_state
              (append_text "Flight Operational Intent Reference non-conformance detected: " code)
              (append_text "State changed by flight authorization checks: " code) v.change))

-- `Signal.send` to one receiver: an exception of the receiver does not reach the sender.
unfoldable pub send : Action (Unit {0}) → Action (Unit {0})
send receiver w = let (r, w') = receiver w in (ok tt, w')
