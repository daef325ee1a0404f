-- ===== src/Feed/Telemetry.antt =====
-- The telemetry of operations: `submit_telemetry` of `FlightFeedOperations`.
-- A flight is a decoded JSON value. `parse_states` and `parse_details` are dacite's `from_dict` over the
-- states and over the details, of which only the id of the operation is read.
use flight_blender.Prelude.{
  inr, ◌⊎◌, inl, ℕ, Bool, true, false, not, ◌&&◌, Option, none, some, List, [], ◌∷◌, ◌++◌,
  if◌then◌else◌, elem,
}
use flight_blender.Exceptions.{Exc, Result, ok, raise, ◌>>=◌}
use flight_blender.Json.{Json, contains, item, elements}
use flight_blender.World.{Declaration}
use flight_blender.Feed.Repository.{check_flight_declaration_active, get_flight_declaration_by_id}

-- What the parsing of states or details gives: a value, one of the exceptions that the service catches,
-- or one that it does not, as for a value of an enumeration that there is not.
pub data Parsed {ℓ} (A : Type ℓ) : Type ℓ where
  parsed : A → Parsed A
  bad_key bad_value : Parsed A
  uncaught : Exc → Parsed A

-- `SignedUnSignedTelemetryObservations`, with the id of the operation if it is a UUID.
pub record TelemetryObservation {ℓ} (S : Type ℓ) : Type ℓ where
  pub current_states : S
  pub operation_id : Option ℕ

-- The answer without the text that names an exception or an operation.
pub data Refusal : Type 0 where
  no_observations no_states key_errors value_errors no_operation wrong_state : Refusal

pub data TelemetryReply : Type 0 where
  refused : Refusal → TelemetryReply
  submitted : TelemetryReply

unfoldable pub code_of : TelemetryReply → ℕ
code_of submitted = 201
code_of (refused r) = 400

-- A payload that is handed to the dispatcher: all observations up to then.
abbrev pub Payload {ℓ} : Type ℓ → Type ℓ
Payload S = List (TelemetryObservation S)

-- The test of the operation, after its observation is appended. An active operation is in the table,
-- so that the second lookup finds it.
unfoldable pub check_operation : ℕ → List Declaration → List ℕ → Option ℕ → Option Refusal
unfolding check_flight_declaration_active get_flight_declaration_by_id
check_operation now declarations allowed_states id =
    if not (check_flight_declaration_active id now declarations)
    then some no_operation
    else elim (get_flight_declaration_by_id id declarations) [
      | none ↦ some no_operation
      | some d ↦ if elem d.state allowed_states then none else some wrong_state
    ]

abbrev allowed : Bool → List ℕ
allowed ussp_network_enabled =
    if not ussp_network_enabled then 2 ∷ 3 ∷ 4 ∷ 1 ∷ [] else 2 ∷ 3 ∷ 4 ∷ []

module _ {ℓ} {S : Type ℓ} (parse_states : Json → Parsed S)
    (parse_details : Json → Parsed (Option ℕ)) where
  -- The observation of a flight, or the reply that ends the request.
  unfoldable pub read_flight : Json → Result (Refusal ⊎ TelemetryObservation S)
  read_flight flight = contains "flight_details" flight >>= λ details.
      contains "current_states" flight >>= λ states.
      if not (details && states)
      then ok (inl no_states)
      else item "current_states" flight >>= λ current_states. elim (parse_states current_states) [
        | bad_key ↦ ok (inl key_errors)
        | bad_value ↦ ok (inl value_errors)
        | uncaught e ↦ raise e
        | parsed all_states ↦ item "flight_details" flight >>= λ flight_details.
            elim (parse_details flight_details) [
              | bad_key ↦ ok (inl key_errors)
              | bad_value ↦ ok (inl value_errors)
              | uncaught e ↦ raise e
              | parsed id ↦ ok (inr (record { current_states = all_states; operation_id = id }))
            ]
      ]

  -- The loop over the flights: the observations so far, and the payloads that were dispatched.
  unfoldable pub submit_flights :
      ℕ
      → List Declaration
      → List ℕ
      → Payload S
      → List Json
      → List (Payload S)
      → Result TelemetryReply × List (Payload S)
  submit_flights now declarations allowed_states observations [] sent = (ok submitted, sent)
  submit_flights now declarations allowed_states observations (flight ∷ flights) sent =
      elim (read_flight flight) [
        | raise e ↦ (raise e, sent)
        | ok (inl r) ↦ (ok (refused r), sent)
        | ok (inr o) ↦ elim (check_operation now declarations allowed_states o.operation_id) [
          | some r ↦ (ok (refused r), sent)
          | none ↦
              submit_flights now declarations allowed_states (observations ++ o ∷ []) flights
                (sent ++ (observations ++ o ∷ []) ∷ [])
        ]
      ]

  unfoldable pub submit_telemetry :
      ℕ → List Declaration → Bool → Json → Result TelemetryReply × List (Payload S)
  unfolding submit_flights
  submit_telemetry now declarations ussp_network_enabled raw_data =
      elim (contains "observations" raw_data) [
        | raise e ↦ (raise e, [])
        | ok false ↦ (ok (refused no_observations), [])
        | ok true ↦ elim (item "observations" raw_data) [
          | raise e ↦ (raise e, [])
          | ok value ↦ elim (elements value) [
            | raise e ↦ (raise e, [])
            | ok flights ↦
                submit_flights now declarations (allowed ussp_network_enabled) [] flights []
          ]
        ]
      ]
