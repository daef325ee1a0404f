-- ===== src/Scd/Planning.antt =====
-- The state of an operational intent for a planned flight, and the validators of a planning request
-- (services/scd_svc.py and utils/scd_helpers.py).
use flight_blender.Prelude.{
  Bool, not, ◌&&◌, String, str_eq, List, [], ◌∷◌, any, is_empty, if◌then◌else◌,
}
use flight_blender.Exceptions.{unbound_local_error, Result, ok, raise}
use flight_blender.Json.{Json}

-- `s in [...]`, of texts
abbrev pub among : String → List String → Bool
among s names = any (str_eq s) names

-- `FlightPlanningInjectionData`, the fields that are validated
pub record FlightPlanningInjectionData : Type 0 where
  pub uas_state : String
  pub usage_state : String
  pub off_nominal_volumes : List Json

unfoldable pub validate_flight_planning_state : FlightPlanningInjectionData → Bool
validate_flight_planning_state d =
    among d.uas_state ("Nominal" ∷ "OffNominal" ∷ "Contingent" ∷ "NotSpecified" ∷ [])

unfoldable pub validate_flight_planning_off_nominals : FlightPlanningInjectionData → Bool
validate_flight_planning_off_nominals d =
    not (among d.usage_state ("Planned" ∷ "InUse" ∷ []) && not (is_empty d.off_nominal_volumes))

unfoldable pub validate_flight_planning_test_data : FlightPlanningInjectionData → Bool
unfolding validate_flight_planning_state validate_flight_planning_off_nominals
validate_flight_planning_test_data d =
    validate_flight_planning_state d && validate_flight_planning_off_nominals d

-- `OperationalIntentTestInjection`, the fields that are validated
pub record OperationalIntentTestInjection : Type 0 where
  pub state : String
  pub off_nominal_volumes : List Json

unfoldable pub validate_operational_intent_state : OperationalIntentTestInjection → Bool
validate_operational_intent_state d =
    among d.state ("Accepted" ∷ "Activated" ∷ "Nonconforming" ∷ [])

unfoldable pub validate_operational_intent_state_off_nominals :
    OperationalIntentTestInjection → Bool
validate_operational_intent_state_off_nominals d =
    not (among d.state ("Accepted" ∷ "Activated" ∷ []) && not (is_empty d.off_nominal_volumes))

unfoldable pub validate_operational_intent_test_data : OperationalIntentTestInjection → Bool
unfolding validate_operational_intent_state validate_operational_intent_state_off_nominals
validate_operational_intent_test_data d =
    validate_operational_intent_state d && validate_operational_intent_state_off_nominals d

-- A branch for no pair leaves the variable unset, and returning it raises.
unfoldable pub generate_operational_intent_state_from_planning_information :
    String → String → Result String
generate_operational_intent_state_from_planning_information uas_state usage_state =
    if str_eq uas_state "Nominal" && str_eq usage_state "Planned"
    then ok "Accepted"
    else if str_eq uas_state "Nominal" && str_eq usage_state "InUse"
    then ok "Activated"
    else if str_eq uas_state "OffNominal" && str_eq usage_state "InUse"
    then ok "Nonconforming"
    else raise unbound_local_error
