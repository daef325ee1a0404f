-- ===== src/Scd/Closing.antt =====
-- `SCDOperations.delete_operational_intent` (flight_blender/clients/dss_scd_client.py) and
-- `SCDService.delete_flight_plan` (flight_blender/services/scd_svc.py).
use flight_blender.Prelude.{ℕ, ◌==◌, Option, none, some, String, if◌then◌else◌}
use flight_blender.World.{
  OpintReference, Action, pure, lift, call, ◌>>=◌, ◌>>◌, delete_operational_intent as deletion_sent,
}
use flight_blender.Repositories.Declarations.{get_opint_reference_by_declaration_id, delete}
use flight_blender.Scd.Dss.{
  Dss, DeleteOperationalIntentResponse, prepare_deletion, request_deletion,
}

pub data PlanningActivityResult : Type 0 where
  completed rejected failed not_supported : PlanningActivityResult

pub data FlightPlanCurrentStatus : Type 0 where
  not_planned planned ok_to_fly off_nominal closed processing : FlightPlanCurrentStatus

pub data AdvisoryInclusion : Type 0 where
  unknown at_least_one_advisory_or_condition no_advisories_or_conditions : AdvisoryInclusion

pub record CloseFlightPlanResponse : Type 0 where
  pub planning_result : PlanningActivityResult
  pub notes : String
  pub flight_plan_status : FlightPlanCurrentStatus
  pub includes_advisories : AdvisoryInclusion

abbrev pub flight_planning_deletion_success_response : CloseFlightPlanResponse
flight_planning_deletion_success_response = record {
  planning_result = completed;
  notes = "The flight was closed successfully by the USS and is now out of the UTM system.";
  flight_plan_status = closed;
  includes_advisories = unknown;
}

abbrev pub flight_planning_deletion_failure_response : CloseFlightPlanResponse
flight_planning_deletion_failure_response = record {
  planning_result = failed;
  notes = "The flight plan was not deleted by the system";
  flight_plan_status = closed;
  includes_advisories = unknown;
}

unfoldable pub delete_operational_intent :
    Dss → ℕ → Option String → Action DeleteOperationalIntentResponse
unfolding prepare_deletion request_deletion
delete_operational_intent dss id ovn = lift (prepare_deletion dss ovn) >>= λ version.
    call (deletion_sent id ovn) >> lift (request_deletion dss id version)

unfoldable pub answer_deletion :
    ℕ → DeleteOperationalIntentResponse → Action CloseFlightPlanResponse
unfolding delete
answer_deletion id deletion_response =
    if deletion_response.status == 200
    then (delete id >>= λ removed. pure flight_planning_deletion_success_response)
    else pure flight_planning_deletion_failure_response

-- The branches on the stored reference
unfoldable pub close_reference : Dss → ℕ → Option OpintReference → Action CloseFlightPlanResponse
unfolding answer_deletion delete_operational_intent
close_reference dss id none = pure flight_planning_deletion_failure_response
close_reference dss id (some reference) =
    delete_operational_intent dss reference.id reference.ovn >>= answer_deletion id

-- Both answers have the HTTP status 200.
unfoldable pub delete_flight_plan : Dss → ℕ → Action CloseFlightPlanResponse
unfolding get_opint_reference_by_declaration_id close_reference
delete_flight_plan dss id = get_opint_reference_by_declaration_id id >>= close_reference dss id
