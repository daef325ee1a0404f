-- ===== src/Declarations/Updates.antt =====
-- The operations on one declaration and the listing of `FlightDeclarationOperations`
-- (flight_blender/services/flight_declarations_svc.py).
use flight_blender.Prelude.{
  ℕ, ◌-◌, ◌*◌, Bool, not, Option, none, some, String, List, take, drop, length, ◌==◌, if◌then◌else◌,
}
use flight_blender.Domain.{Settings}
use flight_blender.Exceptions.{traverse}
use flight_blender.World.{Action, pure, lift, ◌>>=◌}
use flight_blender.Repositories.Serialize.{SerializedDeclaration, serialize}
use flight_blender.Repositories.Declarations.{get_by_id, update, delete, list}
use flight_blender.Declarations.Requests.{
  detail, message, submitted, state_set, approval_set, Response,
}

-- The first day, the last day and the states are decoded already; `none` for the states is a text
-- with no token, and `malformed` a token that is no integer.
pub data StatesQuery : Type 0 where
  malformed : StatesQuery
  states : Option (List ℕ) → StatesQuery

pub record Listing : Type 0 where
  pub count : ℕ
  pub results : List SerializedDeclaration

pub data ListResponse : Type 0 where
  listed : Listing → ListResponse
  bad_states : ListResponse

-- `items[offset : offset + page_size]` with `offset = max(page - 1, 0) * page_size`: the subtraction
-- stops at 0 as `max` does.
unfoldable pub page_of {ℓ} : {A : Type ℓ} → ℕ → ℕ → List A → List A
page_of page page_size items = take page_size (drop ((page - 1) * page_size) items)

unfoldable pub list_flight_declarations : ℕ → ℕ → StatesQuery → ℕ → ℕ → Action (ListResponse × ℕ)
unfolding list page_of
list_flight_declarations s_date e_date malformed page page_size = pure (bad_states, 400)
list_flight_declarations s_date e_date (states wanted) page page_size =
    list (some s_date) (some e_date) wanted >>= λ items.
    lift (traverse serialize (page_of page page_size items)) >>= λ serialized.
    pure (listed (record { count = length items; results = serialized }), 200)

unfoldable pub get_flight_declaration : ℕ → Action (Option SerializedDeclaration × ℕ)
unfolding get_by_id
get_flight_declaration pk = get_by_id pk >>= λ found. elim found [
  | none ↦ pure (none, 404)
  | some d ↦ lift (serialize d) >>= λ serialized. pure (some serialized, 200)
]

-- Any state is taken: the state machine is not asked.
unfoldable pub update_flight_declaration_state : ℕ → ℕ → Action Response
unfolding update
update_flight_declaration_state pk state = update pk (λ d. record d { state = state }) >>= λ found.
    elim found [
      | none ↦ pure (detail "Not found", 404)
      | some d ↦ pure (state_set d.state d.submitted_by, 200)
    ]

abbrev keep_approver : Option String → Option String → Option String
keep_approver none old = old
keep_approver (some a) old = some a

unfoldable pub update_flight_declaration_approval : ℕ → Bool → Option String → Action Response
unfolding update
update_flight_declaration_approval pk is_approved approved_by =
    update pk (λ d. record d {
      is_approved = is_approved;
      approved_by = keep_approver approved_by d.approved_by;
    })
    >>= λ found. elim found [
      | none ↦ pure (detail "Not found", 404)
      | some d ↦ pure (approval_set d.is_approved d.approved_by, 200)
    ]

unfoldable pub delete_flight_declaration : ℕ → Action ℕ
unfolding delete
delete_flight_declaration declaration_id =
    delete declaration_id >>= λ deleted. pure (if deleted then 204 else 404)

-- `state` of the body: absent, no integer, or a code.
pub data StateField : Type 0 where
  absent : StateField
  no_integer : StateField
  code : ℕ → StateField

unfoldable pub update_state_from_request : ℕ → StateField → Action Response
unfolding update_flight_declaration_state
update_state_from_request pk absent = pure (detail "state is required", 422)
update_state_from_request pk no_integer = pure (detail "state must be an integer", 422)
update_state_from_request pk (code state) = update_flight_declaration_state pk state

unfoldable pub update_approval_from_request : ℕ → Option Bool → Option String → Action Response
unfolding update_flight_declaration_approval
update_approval_from_request pk none approved_by = pure (detail "is_approved is required", 422)
update_approval_from_request pk (some is_approved) approved_by =
    update_flight_declaration_approval pk is_approved approved_by

unfoldable pub submit_flight_declaration_to_dss : Settings → ℕ → Action Response
unfolding get_by_id
submit_flight_declaration_to_dss settings pk =
    if not settings.ussp_network_enabled
    then pure (message "USSP network is not enabled", 400)
    else (get_by_id pk >>= λ found. elim found [
      | none ↦ pure (message "Flight declaration not found.", 404)
      | some d ↦
          if not (d.state == 0)
          then pure (message "Flight declaration is not in 'Not Submitted' state", 409)
          else pure (submitted d.id, 200)
    ])
