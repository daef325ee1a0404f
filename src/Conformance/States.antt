-- ===== src/Conformance/States.antt =====
-- The life cycle of an operation per ASTM F3548-21: the state classes of
-- flight_blender/services/conformance_svc.py and `FlightOperationStateMachine`.
use flight_blender.Prelude.{
  ℕ, Bool, ◌||◌, Option, none, some, String, List, [], ◌∷◌, str_eq, ◌==◌, if◌then◌else◌,
}
use flight_blender.Exceptions.{attribute_error, Result, ok, raise, ◌>>=◌}

-- One constructor for each subclass of `State`.
pub data State : Type 0 where
  not_submitted accepted activated ended nonconforming contingent withdrawn cancelled rejected :
      State

pub State-discrete : Discrete State
State-discrete = hlevel

-- `State.on_event`, class by class: an event that a state does not know leaves it.
unfoldable pub on_event : State → String → State
on_event not_submitted event =
    if str_eq event "dss_accepts"
    then accepted
    else if str_eq event "operator_withdraws"
    then withdrawn
    else if str_eq event "operator_cancels"
    then cancelled
    else not_submitted
on_event accepted event =
    if str_eq event "operator_activates"
    then activated
    else if str_eq event "operator_confirms_ended"
    then ended
    else if str_eq event "ua_departs_early_late_outside_op_intent"
    then nonconforming
    else accepted
on_event activated event =
    if str_eq event "operator_confirms_ended"
    then ended
    else if str_eq event "ua_exits_coordinated_op_intent"
    then nonconforming
    else if str_eq event "operator_initiates_contingent"
    then contingent
    else activated
on_event ended event = ended
on_event nonconforming event =
    if str_eq event "operator_return_to_coordinated_op_intent"
    then activated
    else if str_eq event "operator_confirms_ended"
    then ended
    else if str_eq event "timeout" || str_eq event "operator_confirms_contingent"
    then contingent
    else nonconforming
on_event contingent event = if str_eq event "operator_confirms_ended" then ended else contingent
on_event withdrawn event = withdrawn
on_event cancelled event = cancelled
on_event rejected event = rejected

abbrev state_mapping : List (ℕ × State)
state_mapping =
    (0, not_submitted)
    ∷ (1, accepted)
    ∷ (2, activated)
    ∷ (3, nonconforming)
    ∷ (4, contingent)
    ∷ (5, ended)
    ∷ (6, withdrawn)
    ∷ (7, cancelled)
    ∷ (8, rejected)
    ∷ []

abbrev lookup : ℕ → List (ℕ × State) → Option State
lookup k [] = none
lookup k ((j, s) ∷ m) = if j == k then some s else lookup k m

-- `match_state`: for an unknown code the result is the value `False`, which is `none` here.
unfoldable pub match_state : ℕ → Option State
match_state status = lookup status state_mapping

-- `get_status`: the inverse of `state_mapping`, which lists every class.
unfoldable pub get_status : State → ℕ
get_status not_submitted = 0
get_status accepted = 1
get_status activated = 2
get_status nonconforming = 3
get_status contingent = 4
get_status ended = 5
get_status withdrawn = 6
get_status cancelled = 7
get_status rejected = 8

-- `FlightOperationStateMachine.on_event`: `False` has no such method.
unfoldable pub machine_on_event : Option State → String → Result State
machine_on_event none event = raise attribute_error
machine_on_event (some s) event = ok (on_event s event)

-- A machine that is fed a sequence of events.
unfoldable pub run : State → List String → State
run s [] = s
run s (event ∷ events) = run (on_event s event) events

-- `FlightOperationConformanceHelper.verify_operation_state_transition`
unfoldable pub verify_operation_state_transition : ℕ → ℕ → String → Result Bool
unfolding match_state machine_on_event
verify_operation_state_transition original_state new_state event =
    machine_on_event (match_state original_state) event >>= λ s. ok (get_status s == new_state)
