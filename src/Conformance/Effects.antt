-- ===== src/Conformance/Effects.antt =====
-- What a change of state sets off (`FlightOperationConformanceHelper`), over all states and events.
use flight_blender.Prelude.{
  ℕ, ◌≡◌, refl, inl, inr, Bool, true, false, ◌||◌, ◌&&◌, String, [], ◌∷◌, arith, elem, none, some,
  Option, str_eq, ◌==◌, find, is_some, if◌then◌else◌,
}
use flight_blender.Exceptions.{Result, ok, raise, Result-cases, ◌>>=◌}
use flight_blender.Json.{item}
use flight_blender.Domain.{Settings}
use flight_blender.World.{
  World, OpintReference, Action, Call, call, ◌>>◌, delete_operational_intent,
}
use flight_blender.Conformance.Helper.{
  done, operation_ended_clear_dss, update_operational_intent_to_activated, clear_and_stop,
  remove_conformance_monitoring_task, create_conformance_monitoring_task, handle_operation_ended,
  handle_withdrawn_state, handle_cancelled_state, handle_contingent_state,
  handle_non_conforming_state, handle_activated_state, manage_operation_state_transition,
}

abbrev pub is_delete : Call → Bool
is_delete (delete_operational_intent _ _) = true
is_delete _ = false

abbrev has_returned : {A : Type 0} → Result A → Bool
has_returned (ok a) = true
has_returned (raise e) = false

abbrev is_versioned : Option OpintReference → Bool
is_versioned none = false
is_versioned (some r) = is_some r.ovn

-- The operation is known, its operational intent in the DSS has a version, and the token service
-- answers with a token.
unfoldable pub can_request : World → ℕ → Bool
can_request w id =
    is_some (find (λ d. d.id == id) w.db.declarations)
    && is_versioned (find (λ r. r.declaration_id == id) w.db.references)
    && has_returned (w.dss.get_auth_token >>= item "access_token")

-- The three ends of an operation, each with the event that confirms it.
abbrev pub ends_operation : ℕ → String → Bool
ends_operation new_state event =
    new_state == 5 && str_eq event "operator_confirms_ended"
    || (new_state == 6 && str_eq event "operator_withdraws"
        || new_state == 7 && str_eq event "operator_cancels")

-- An action that changes neither a table nor the queue of messages, whether it returns or raises.
record IsQuiet (m : Action (Unit {0})) : Type 0 where
  at : (w : World) → ((m w).1.db ≡ w.db) × ((m w).1.messages ≡ w.messages)

done-IsQuiet : IsQuiet done
done-IsQuiet = record { at = λ w. (refl, refl) }

call-IsQuiet : (c : Call) → IsQuiet (call c)
call-IsQuiet c = record { at = λ w. (refl, refl) }

if-IsQuiet :
    (b : Bool) (m n : Action (Unit {0})) → IsQuiet m → IsQuiet n → IsQuiet (if b then m else n)
if-IsQuiet true m n p q = p
if-IsQuiet false m n p q = q

then-IsQuiet : (m n : Action (Unit {0})) → IsQuiet m → IsQuiet n → IsQuiet (m >> n)
then-IsQuiet m n p q = record {
  at = λ w. elim (Result-cases (m w).0) [
    | inl (a, e) ↦ ground (arith, p.at w, q.at (m w).1)
    | inr (x, e) ↦ ground (arith, p.at w)
  ];
}

ruleset quiet_rules = (done-IsQuiet, call-IsQuiet, if-IsQuiet, then-IsQuiet)

operation_ended_clear_dss-IsQuiet : (b : Bool) (id : ℕ) → IsQuiet (operation_ended_clear_dss b id)
unfolding operation_ended_clear_dss
operation_ended_clear_dss-IsQuiet b id = record { at = λ w. ground arith }

update_to_activated-IsQuiet :
    (b : Bool) (id : ℕ) → IsQuiet (update_operational_intent_to_activated b id)
unfolding update_operational_intent_to_activated
update_to_activated-IsQuiet b id = record { at = λ w. ground arith }

module _ (settings : Settings) (id original_state : ℕ) (event : String) where
  clear_and_stop-IsQuiet : IsQuiet (clear_and_stop settings id)
  unfolding clear_and_stop remove_conformance_monitoring_task
  clear_and_stop-IsQuiet =
      then-IsQuiet _ _
        (if-IsQuiet settings.ussp_network_enabled _ _ (operation_ended_clear_dss-IsQuiet false id)
          done-IsQuiet)
        (if-IsQuiet settings.enable_conformance_monitoring _ _ removal done-IsQuiet)
    where
      removal : IsQuiet (remove_conformance_monitoring_task id)
      removal = record { at = λ w. ground arith }

  handle_contingent_state-IsQuiet :
      IsQuiet (handle_contingent_state settings id original_state event)
  unfolding handle_contingent_state
  handle_contingent_state-IsQuiet = record { at = λ w. ground arith }

  handle_non_conforming_state-IsQuiet :
      IsQuiet (handle_non_conforming_state settings id original_state event)
  unfolding handle_non_conforming_state
  handle_non_conforming_state-IsQuiet = record { at = λ w. ground arith }

  handle_activated_state-IsQuiet : IsQuiet (handle_activated_state settings id original_state event)
  unfolding handle_activated_state update_operational_intent_to_activated
      create_conformance_monitoring_task
  handle_activated_state-IsQuiet = record { at = λ w. ground arith }

module _ (settings : Settings) (id original_state new_state : ℕ) (event : String) where
  manage-IsQuiet :
      IsQuiet (manage_operation_state_transition settings id original_state new_state event)
  unfolding manage_operation_state_transition handle_operation_ended handle_withdrawn_state
      handle_cancelled_state
  manage-IsQuiet =
      if-IsQuiet (new_state == 5) _ _
        (if-IsQuiet (str_eq event "operator_confirms_ended") _ _ ends done-IsQuiet)
        (if-IsQuiet (new_state == 4) _ _
          (handle_contingent_state-IsQuiet settings id original_state event)
          (if-IsQuiet (new_state == 3) _ _
            (handle_non_conforming_state-IsQuiet settings id original_state event)
            (if-IsQuiet (new_state == 2) _ _
              (handle_activated_state-IsQuiet settings id original_state event)
              (if-IsQuiet (new_state == 6) _ _
                (if-IsQuiet (str_eq event "operator_withdraws") _ _ ends done-IsQuiet)
                (if-IsQuiet (new_state == 7) _ _
                  (if-IsQuiet (str_eq event "operator_cancels") _ _ ends done-IsQuiet)
                  done-IsQuiet)))))
    where
      ends : IsQuiet (clear_and_stop settings id)
      ends = clear_and_stop-IsQuiet settings id original_state event

  -- The handlers of a change of state write no table and send no message, whether they return or raise.
  pub manage-keeps_tables :
      (w : World)
      → let w' =
          (manage_operation_state_transition settings id original_state new_state event w).1 in
        (w'.db ≡ w.db) × (w'.messages ≡ w.messages)
  manage-keeps_tables w = manage-IsQuiet.at w

  -- Only the handlers of an activated, ended, withdrawn or cancelled operation may raise.
  pub manage-returns :
      (w : World)
      → elem new_state (2 ∷ 5 ∷ 6 ∷ 7 ∷ []) ≡ false
      → (manage_operation_state_transition settings id original_state new_state event w).0 ≡ ok tt
  unfolding manage_operation_state_transition handle_contingent_state handle_non_conforming_state
  manage-returns w safe = ground arith
