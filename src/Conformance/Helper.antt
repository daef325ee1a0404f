-- ===== src/Conformance/Helper.antt =====
-- `FlightOperationConformanceHelper` (flight_blender/services/conformance_svc.py): what a change of
-- state sets off. Log lines that stand for steps the source leaves to do are recorded as calls.
use flight_blender.Prelude.{
  ℕ, Bool, false, ◌||◌, ◌&&◌, Option, none, some, String, [], ◌∷◌, str_eq, ◌==◌, elem,
  if◌then◌else◌,
}
use flight_blender.Domain.{Settings}
use flight_blender.World.{
  OpintReference, Action, pure, call, log_info, lift, parse_stored_operational_intent_details,
  ◌>>=◌, ◌>>◌,
}
use flight_blender.Scd.Closing.{delete_operational_intent}
use flight_blender.Repositories.Declarations.{get_by_id, get_opint_reference_by_declaration_id}

abbrev pub done : Action (Unit {0})
done = pure tt

-- The deletion may raise before or after the request; the status of an answer is only logged.
unfoldable pub clear_reference : OpintReference → Action (Unit {0})
unfolding delete_operational_intent
clear_reference r w = (delete_operational_intent w.dss r.id r.ovn >>= λ status. done) w

unfoldable pub operation_ended_clear_dss : Bool → ℕ → Action (Unit {0})
unfolding get_by_id get_opint_reference_by_declaration_id clear_reference
operation_ended_clear_dss dry_run id = get_by_id id >>= λ found. elim found [
  | none ↦ done
  | some d ↦ get_opint_reference_by_declaration_id d.id >>= λ reference. elim reference [
    | none ↦ done
    | some r ↦ if dry_run then done else clear_reference r
  ]
]

-- Reading the stored intent, whose value is not used, may raise.
unfoldable pub read_stored : ℕ → Action (Unit {0})
read_stored id w = (call (parse_stored_operational_intent_details id) >> lift (w.parse_stored id)) w

unfoldable pub update_operational_intent_to_activated : Bool → ℕ → Action (Unit {0})
unfolding get_by_id get_opint_reference_by_declaration_id read_stored
update_operational_intent_to_activated dry_run id =
    if dry_run
    then done
    else (get_by_id id >>= λ found. elim found [
      | none ↦ done
      | some d ↦ get_opint_reference_by_declaration_id id >>= λ reference. elim reference [
        | none ↦ done
        | some r ↦ read_stored id
      ]
    ])

unfoldable pub operator_declares_contingency : Bool → ℕ → Action (Unit {0})
operator_declares_contingency dry_run id =
    if dry_run then done else call (log_info "Declaring contingency" id)

unfoldable pub update_operational_intent_to_non_conforming : Bool → ℕ → Action (Unit {0})
update_operational_intent_to_non_conforming dry_run id =
    if dry_run then done else call (log_info "Updating operational intent to non-conforming" id)

unfoldable pub transition_to_non_conforming_update_expand_volumes : Bool → ℕ → Action (Unit {0})
transition_to_non_conforming_update_expand_volumes dry_run id =
    if dry_run then done else call (log_info "Transitioning to non-conforming (expand volumes)" id)

unfoldable pub remove_conformance_monitoring_task : ℕ → Action (Unit {0})
remove_conformance_monitoring_task id = call (log_info "Removing conformance monitoring job" id)

unfoldable pub create_conformance_monitoring_task : ℕ → Action (Unit {0})
create_conformance_monitoring_task id =
    call (log_info "Conformance monitoring scheduling is handled by TaskSchedulerService" id)

-- The common tail of the handlers of an ended, a withdrawn and a cancelled operation.
unfoldable pub clear_and_stop : Settings → ℕ → Action (Unit {0})
clear_and_stop settings id =
    (if settings.ussp_network_enabled then operation_ended_clear_dss false id else done)
    >> (if settings.enable_conformance_monitoring
        then remove_conformance_monitoring_task id
        else done)

unfoldable pub handle_operation_ended : Settings → ℕ → String → Action (Unit {0})
handle_operation_ended settings id event =
    if str_eq event "operator_confirms_ended" then clear_and_stop settings id else done

unfoldable pub handle_withdrawn_state : Settings → ℕ → String → Action (Unit {0})
handle_withdrawn_state settings id event =
    if str_eq event "operator_withdraws" then clear_and_stop settings id else done

unfoldable pub handle_cancelled_state : Settings → ℕ → String → Action (Unit {0})
handle_cancelled_state settings id event =
    if str_eq event "operator_cancels" then clear_and_stop settings id else done

unfoldable pub handle_contingent_state : Settings → ℕ → ℕ → String → Action (Unit {0})
unfolding operator_declares_contingency
handle_contingent_state settings id original_state event =
    let valid_2 : Bool =
      str_eq event "operator_initiates_contingent"
      || str_eq event "flight_blender_confirms_contingent" in
    let valid_3 : Bool = str_eq event "timeout" || str_eq event "operator_confirms_contingent" in
    if settings.ussp_network_enabled
    then (if elem original_state (2 ∷ 3 ∷ []) && (if original_state == 2 then valid_2 else valid_3)
        then operator_declares_contingency false id
        else done)
    else done

-- The handler that the event names runs where the network is enabled.
non_conforming_handler : String → Option (Bool → ℕ → Action (Unit {0}))
unfolding transition_to_non_conforming_update_expand_volumes
    update_operational_intent_to_non_conforming
non_conforming_handler event =
    if str_eq event "ua_exits_coordinated_op_intent"
    then some transition_to_non_conforming_update_expand_volumes
    else if str_eq event "ua_departs_early_late"
    then some update_operational_intent_to_non_conforming
    else none

unfoldable pub handle_non_conforming_state : Settings → ℕ → ℕ → String → Action (Unit {0})
unfolding non_conforming_handler
handle_non_conforming_state settings id original_state event = elim (non_conforming_handler event) [
  | none ↦ done
  | some handler ↦
      if elem original_state (1 ∷ 2 ∷ []) && settings.ussp_network_enabled
      then handler false id
      else done
]

unfoldable pub handle_activated_state : Settings → ℕ → ℕ → String → Action (Unit {0})
handle_activated_state settings id original_state event =
    if original_state == 1 && str_eq event "operator_activates"
    then (if settings.ussp_network_enabled
        then update_operational_intent_to_activated false id
        else done)
      >> (if settings.enable_conformance_monitoring
          then create_conformance_monitoring_task id
          else done)
    else done

-- `manage_operation_state_transition`: the handler of the new state; 0, 1 and 8 have none.
unfoldable pub manage_operation_state_transition : Settings → ℕ → ℕ → ℕ → String → Action (Unit {0})
unfolding handle_operation_ended handle_contingent_state handle_non_conforming_state
    handle_activated_state handle_withdrawn_state handle_cancelled_state
manage_operation_state_transition settings id original_state new_state event =
    if new_state == 5
    then handle_operation_ended settings id event
    else if new_state == 4
    then handle_contingent_state settings id original_state event
    else if new_state == 3
    then handle_non_conforming_state settings id original_state event
    else if new_state == 2
    then handle_activated_state settings id original_state event
    else if new_state == 6
    then handle_withdrawn_state settings id event
    else if new_state == 7
    then handle_cancelled_state settings id event
    else done
