-- ===== src/Declarations/IntentExamples.antt =====
-- The theorems on operational intents at a concrete request and engine.
use flight_blender.Prelude.{
  ℕ, pos, ◌+◌, ◌≡◌, refl, ◌⊎◌, true, false, none, some, String, [], ◌∷◌, find, if◌then◌else◌,
}
use flight_blender.Exceptions.{Exc, Result, ok, raise}
use flight_blender.Json.{Json, arr, nil, cons, str}
use flight_blender.World.{Declaration, World}
use flight_blender.Repositories.Declarations.{
  has_id, create, update, add_state_history_entry, get_by_id,
}
use flight_blender.Samples.{offline, nothing, square}
use flight_blender.Declarations.Requests.{Body, Response, Externals, created, message}
use flight_blender.Declarations.Validation.{validate_dates, dates_ok}
use flight_blender.Declarations.Intersections.{
  DeconflictionResult, reject, process_intersection_result,
}
use flight_blender.Declarations.Rejection.{rejected}
use flight_blender.Declarations.Converter.{
  Shapes, parse_volume4ds_to_v4d_list, convert_volume, convert_volumes,
}
use flight_blender.Declarations.SetIntent.{
  IntentRequest, IntentExternals, Engine, request_for, run_deconfliction, prepare_intent, row,
  intent_row, decide_intent, submit_intent, set_operational_intent,
}
use flight_blender.Declarations.IntentOutcomes.{
  entered, set_operational_intent-no_engine, set_operational_intent-decided,
}

abbrev surroundings : Externals
surroundings = record {
  now = 1000;
  arrow_get = λ s. ok 2000;
  load = λ r. none;
  shape_is_valid = λ g. ok true;
  union_bounds = λ gs. ok [];
}

abbrev plain_shapes : Shapes
plain_shapes = record {
  Shape = Json;
  polygon = λ ps. ok (str "ring");
  orient = λ s. s;
  circle = λ c r. ok (str "circle");
  mapping = λ s. s;
  bounds = λ ss. ok (pos 0 ∷ pos 0 ∷ pos 9 ∷ pos 9 ∷ []);
}

abbrev more : IntentExternals
more = record { load = λ r. none; now_text = "now"; shapes = plain_shapes }

abbrev intent_request : IntentRequest
intent_request = record {
  operational_intent_volume4ds = arr (cons (square 0 10 0 120) nil);
  originating_party = some "operator";
  submitted_by = none;
  aircraft_id = some "drone";
  start_datetime = some "start";
  end_datetime = some "stop";
  type_of_operation = some 1;
}

set_operational_intent-no_engine_example :
    let (answered, ws') =
      set_operational_intent {S = ℕ} offline surroundings more none 9 intent_request (nothing, 0) in
    ((text : String) × (answered ≡ ok (message text, 400)) × (ws' ≡ (nothing, 0)))
    ⊎ ((e : Exc) × (answered ≡ raise e))
set_operational_intent-no_engine_example =
    set_operational_intent-no_engine offline surroundings more 9 intent_request nothing 0

-- An engine that refuses everything and counts its calls.
abbrev refusal : DeconflictionResult
refusal = record {
  all_relevant_fences = 3 ∷ [];
  all_relevant_declarations = [];
  is_approved = false;
  declaration_state = 8;
}

abbrev refuse_all : Engine ℕ
refuse_all request db calls = (ok refusal, calls + 1)

abbrev outcome : Result Response × (World × ℕ)
outcome =
    set_operational_intent offline surroundings more (some refuse_all) 9 intent_request (nothing, 0)

abbrev answer_body : Body
answer_body =
    created
      (record { id = 9; message = "Submitted Flight Declaration"; is_approved = false; state = 8 })

answered : outcome ≡ (ok (answer_body, 200), (outcome.1.0, outcome.1.1))
unfolding set_operational_intent prepare_intent parse_volume4ds_to_v4d_list convert_volumes
    convert_volume validate_dates dates_ok intent_row submit_intent create add_state_history_entry
    get_by_id decide_intent run_deconfliction process_intersection_result reject update
answered = refl

set_operational_intent-decided_example :
    (d : Declaration) × (result : DeconflictionResult) × (prepare_intent offline surroundings more 9
        intent_request
      ≡ ok (row d))
    × (find (has_id d.id) [] ≡ none)
    × (refuse_all (request_for false d) (entered offline d nothing).db 0 ≡ (ok result, outcome.1.1))
    × (answer_body
        ≡ created (record {
          id = d.id;
          message = "Submitted Flight Declaration";
          is_approved = result.is_approved;
          state = result.declaration_state;
        }))
    × (outcome.1.0.db ≡ (
        if result.is_approved
        then (entered offline d nothing).db
        else (rejected d result.declaration_state (entered offline d nothing)).db))
set_operational_intent-decided_example =
    set_operational_intent-decided offline surroundings more refuse_all 9 intent_request answer_body
      nothing outcome.1.0 0 outcome.1.1 answered
