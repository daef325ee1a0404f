-- ===== src/Conformance/Periodic.antt =====
-- What the periodic check (flight_blender/tasks/conformance_task.py) leaves behind, over the receivers
-- that it sends its signals to.
use flight_blender.Prelude.{
  ◌+◌, ◌++◌, ◌≤◌, List, length, Option-cases, Bool, ℕ, ◌≡◌, refl, inl, inr, true, false, Option,
  String, [], ◌∷◌, arith,
}
use flight_blender.Exceptions.{Result-cases}
use flight_blender.Domain.{Settings}
use flight_blender.World.{Message, session, World}
use flight_blender.Conformance.Engine.{
  Geometry, is_operation_conformant_via_telemetry,
  check_flight_operational_intent_reference_conformance,
}
use flight_blender.Conformance.Task.{
  Observation, check_flight_conformance, check_operation_telemetry_conformance,
}
use flight_blender.Conformance.Checks.{state_code}
use flight_blender.Conformance.Signals.{
  opint_verdict, telemetry_verdict, send_conformance_status_notification, send,
  process_telemetry_conformance_message, process_opint_reference_non_conformance_message,
  run_signal_db_work,
}

length-message : (ms : List Message) (m : Message) → length (ms ++ m ∷ []) ≡ length ms + 1
length-message [] m = refl
length-message (x ∷ ms) m = omega (arith, length-message ms m)

abbrev warning : ℕ → String → Message
warning id text = record { flight_declaration_id = id; message_text = text; level = "error" }

module _ (settings : Settings) (configured : Bool) (now id code : ℕ) (w : World) where
  -- In a running loop a receiver queues one notification at most, and that is all.
  opint_receiver-keeps :
      let w' =
        (process_opint_reference_non_conformance_message settings configured true now id code
          w).1 in
      (w'.db ≡ w.db) × (w'.calls ≡ w.calls) × (length w'.messages ≤ length w.messages + 1)
  unfolding process_opint_reference_non_conformance_message run_signal_db_work
      send_conformance_status_notification
  opint_receiver-keeps = elim (Result-cases (state_code code)) [
    | inl (c, e) ↦ ground (arith, length-message w.messages (warning id (opint_verdict c).message))
    | inr (x, e) ↦ ground arith
  ]

  telemetry_receiver-keeps :
      let w' = (process_telemetry_conformance_message settings configured true now id code w).1 in
      (w'.db ≡ w.db) × (w'.calls ≡ w.calls) × (length w'.messages ≤ length w.messages + 1)
  unfolding process_telemetry_conformance_message run_signal_db_work
      send_conformance_status_notification
  telemetry_receiver-keeps = elim (Result-cases (state_code code)) [
    | inl (c, e) ↦
        ground (arith, length-message w.messages (warning id (telemetry_verdict c).message))
    | inr (x, e) ↦ ground arith
  ]

module _ (g : Geometry) (settings : Settings) (now : ℕ) (latest : Option Observation) (id : ℕ) where
  -- Where no dependencies were registered, the periodic check changes nothing, whatever it finds: the
  -- receivers raise and the signal swallows the exception.
  pub check_flight_conformance-unconfigured :
      (w : World) → (check_flight_conformance g settings false now latest id w).1 ≡ w
  unfolding check_flight_conformance check_operation_telemetry_conformance session send
      process_telemetry_conformance_message process_opint_reference_non_conformance_message
  check_flight_conformance-unconfigured w = ground arith

  telemetry_check-keeps :
      (configured : Bool) (w : World)
      → let w' = (check_operation_telemetry_conformance g settings configured now latest id w).1 in
        (w'.db ≡ w.db) × (w'.calls ≡ w.calls) × (length w'.messages ≤ length w.messages + 1)
  unfolding check_operation_telemetry_conformance session send
  telemetry_check-keeps configured w = elim (Option-cases latest) [
    | inl e ↦ ground arith
    | inr (o, e) ↦
        elim (Result-cases (
          is_operation_conformant_via_telemetry g now w.db o.icao_address
            (o.longitude_dd, o.latitude_dd) o.altitude_mm settings id)) [
              | inl (code, e') ↦
                  ground (arith, telemetry_receiver-keeps settings configured now id code w)
              | inr (x, e') ↦ ground arith
            ]
  ]

  -- Whatever the periodic check finds, and whether dependencies were registered or not, it changes no
  -- table, sends no request to the DSS and queues one notification at most: the work that a failed check
  -- starts is cancelled.
  pub check_flight_conformance-keeps :
      (configured : Bool) (w : World)
      → let w' = (check_flight_conformance g settings configured now latest id w).1 in
        (w'.db ≡ w.db) × (w'.calls ≡ w.calls) × (length w'.messages ≤ length w.messages + 1)
  unfolding check_flight_conformance send
  check_flight_conformance-keeps configured w = ground (
    arith,
    telemetry_check-keeps configured w,
    opint_receiver-keeps settings configured now id
        (check_flight_operational_intent_reference_conformance settings now w.db id) w,
  )
