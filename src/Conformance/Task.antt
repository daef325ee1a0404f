-- ===== src/Conformance/Task.antt =====
-- The periodic task `check_flight_conformance` (flight_blender/tasks/conformance_task.py). The
-- latest observation of the flight is an argument: it comes from the feed and from Redis. The signals
-- are sent while the loop of the task runs.
use flight_blender.Prelude.{ℕ, ℤ, Bool, true, Option, none, some, String, ◌==◌, if◌then◌else◌}
use flight_blender.Domain.{Settings}
use flight_blender.World.{Action, gets, session, ◌>>=◌}
use flight_blender.Conformance.Engine.{
  Geometry, is_operation_conformant_via_telemetry,
  check_flight_operational_intent_reference_conformance,
}
use flight_blender.Conformance.Signals.{
  process_telemetry_conformance_message, process_opint_reference_non_conformance_message, send,
}
use flight_blender.Conformance.Helper.{done}

-- The fields of the latest observation that the task reads; `flight_details_id` is
-- `metadata["flight_details"]["id"]`.
pub record Observation : Type 0 where
  pub flight_details_id : ℕ
  pub icao_address : String
  pub latitude_dd : ℤ
  pub longitude_dd : ℤ
  pub altitude_mm : ℤ

module _ (g : Geometry) (settings : Settings) (configured : Bool) (now : ℕ) where
  -- `_async_check_operation_telemetry_conformance`: the engine is given `altitude_mm` as it is.
  unfoldable pub check_operation_telemetry_conformance : Option Observation → ℕ → Action (Unit {0})
  check_operation_telemetry_conformance latest id = elim latest [
    | none ↦ done
    | some o ↦
        if o.flight_details_id == id
        then (session (λ w. (
          is_operation_conformant_via_telemetry g now w.db o.icao_address
              (o.longitude_dd, o.latitude_dd) o.altitude_mm settings id,
          w,
        ))
            >>= λ code.
                if code == 100
                then done
                else send
                    (process_telemetry_conformance_message settings configured true now id code))
        else done
  ]

  -- `_async_check_flight_conformance`
  unfoldable pub check_flight_conformance : Option Observation → ℕ → Action (Unit {0})
  check_flight_conformance latest id =
      gets (λ w. check_flight_operational_intent_reference_conformance settings now w.db id)
      >>= λ code.
          if code == 1
          then check_operation_telemetry_conformance latest id
          else send
              (process_opint_reference_non_conformance_message settings configured true now id code)
