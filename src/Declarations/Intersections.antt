-- ===== src/Declarations/Intersections.antt =====
-- `_process_intersection_result_sa` (flight_blender/services/flight_declarations_svc.py): what follows
-- from the result of the deconfliction of a new declaration.
use flight_blender.Prelude.{ℕ, Bool, false, not, ◌&&◌, String, List, is_empty, ◌==◌, if◌then◌else◌}
use flight_blender.Domain.{Settings}
use flight_blender.World.{
  Declaration, Action, pure, notify, call, submit_flight_declaration_to_dss, ◌>>◌,
}
use flight_blender.Repositories.Declarations.{update, add_state_history_entry}
use flight_blender.Declarations.Requests.{CreateResponse}

-- `DeconflictionResult`; the fences and declarations are known by their ids.
pub record DeconflictionResult : Type 0 where
  pub all_relevant_fences : List ℕ
  pub all_relevant_declarations : List ℕ
  pub is_approved : Bool
  pub declaration_state : ℕ

abbrev pub done : Action (Unit {0})
done = pure tt

abbrev pub rejection : String
rejection = "Rejected by Flight Blender because of time/space conflicts with existing operations"

-- The change of a declaration that is not approved.
unfoldable pub reject : Declaration → ℕ → Action (Unit {0})
reject fd declaration_state =
    update fd.id (λ d. record d { is_approved = false; state = declaration_state })
    >> add_state_history_entry fd.id fd.state declaration_state rejection

unfoldable pub process_intersection_result :
    Settings → Declaration → DeconflictionResult → Action CreateResponse
process_intersection_result settings fd result =
    (if not result.is_approved then reject fd result.declaration_state else done)
    >> notify fd.id "Flight Declaration created.." "info"
    >> (if not (is_empty result.all_relevant_fences)
          && not (is_empty result.all_relevant_declarations)
        then notify fd.id
            "Self deconfliction failed, there are existing operations declared in the area" "error"
        else done)
    >> (if result.is_approved
          && result.declaration_state == 0
          && settings.ussp_network_enabled
          && settings.auto_submit_to_dss
        then call (submit_flight_declaration_to_dss fd.id)
        else done)
    >> pure (record {
      id = fd.id;
      message = "Submitted Flight Declaration";
      is_approved = result.is_approved;
      state = result.declaration_state;
    })
