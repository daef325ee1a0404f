-- ===== src/Declarations/SetIntent.antt =====
-- `_run_deconfliction_sa` and `set_operational_intent` of `FlightDeclarationOperations`
-- (flight_blender/services/flight_declarations_svc.py). The engine is a plugin with a state of its own.
use flight_blender.Prelude.{
  ℕ, ℤ, Bool, true, Option, none, some, String, List, [], ◌∷◌, ◌==◌, if◌then◌else◌,
}
use flight_blender.Exceptions.{key_error, Result, ok, raise, or_raise, ◌>>=◌}
use flight_blender.Json.{Json, str, obj, arr, end, field, loads, elements}
use flight_blender.Domain.{Settings}
use flight_blender.World.{Declaration, Db, World, Action}
use flight_blender.Repositories.Declarations.{create, add_state_history_entry}
use flight_blender.Deconfliction.Engine.{DeconflictionRequest}
use flight_blender.Declarations.Requests.{CreateResponse, Externals, Response, message, created}
use flight_blender.Declarations.Validation.{validate_dates}
use flight_blender.Declarations.Intents.{array, or_default}
use flight_blender.Declarations.Intersections.{DeconflictionResult, process_intersection_result}
use flight_blender.Declarations.Converter.{
  ParsedVolume, Shapes, parse_volume4ds_to_v4d_list, volume_dicts, convert_volumes,
}

-- The body of the request, by the fields that the code reads.
pub record IntentRequest : Type 0 where
  pub operational_intent_volume4ds : Json
  pub originating_party : Option String
  pub submitted_by : Option String
  pub aircraft_id : Option String
  pub start_datetime : Option String
  pub end_datetime : Option String
  pub type_of_operation : Option ℕ

-- An action with the state of the engine beside the world.
abbrev pub Service : Type 0 → Type 0 → Type 0
Service S A = World × S → Result A × (World × S)

abbrev pub Engine : Type 0 → Type 0
Engine S = DeconflictionRequest → Db → S → Result DeconflictionResult × S

module _ {S : Type 0} where
  abbrev pub returning : {A : Type 0} → A → Service S A
  returning a ws = (ok a, ws)

module _ {S : Type 0} {A B : Type 0} where
  infixl 5 ◌>>>◌
  abbrev pub ◌>>>◌ : Service S A → (A → Service S B) → Service S B
  ◌>>>◌ m f ws = let (r, ws') = m ws in elim r [ ok a ↦ f a ws' | raise e ↦ (raise e, ws') ]

module _ {S : Type 0} {A : Type 0} where
  -- An action that does not touch the engine.
  abbrev pub on_world : Action A → Service S A
  on_world m (w, s) = let (r, w') = m w in (r, (w', s))

  abbrev pub calling : Result A → Service S A
  calling r ws = (r, ws)

-- The question to the engine about a declaration. The stored GeoJSON is decoded first.
abbrev pub request_for : Bool → Declaration → DeconflictionRequest
request_for ussp_network_enabled fd = record {
  start_datetime = fd.start_datetime;
  end_datetime = fd.end_datetime;
  view_box = fd.bounds;
  ussp_network_enabled = ussp_network_enabled;
  declaration_id = some fd.id;
}

abbrev ask : {S : Type 0} → Engine S → Bool → Declaration → Service S DeconflictionResult
ask engine ussp_network_enabled fd (w, s) = elim (loads fd.flight_declaration_raw_geojson) [
  | raise e ↦ (raise e, (w, s))
  | ok geojson ↦ let (r, s') = engine (request_for ussp_network_enabled fd) w.db s in (r, (w, s'))
]

-- The results by the ids of the declarations. With no engine configured there are none.
unfoldable pub run_deconfliction :
    {S : Type 0}
    → Option (Engine S)
    → Bool
    → List Declaration
    → Service S (List (ℕ × DeconflictionResult))
run_deconfliction engine ussp_network_enabled [] = returning []
run_deconfliction engine ussp_network_enabled (fd ∷ fds) = elim engine [
  | none ↦ calling (loads fd.flight_declaration_raw_geojson) >>> λ _.
      run_deconfliction engine ussp_network_enabled fds
  | some check ↦ ask check ussp_network_enabled fd >>> λ result.
      run_deconfliction engine ussp_network_enabled fds >>> λ rest.
      returning ((fd.id, result) ∷ rest)
]

-- What the operation takes from the surroundings beside `Externals`: the schema of the request and the
-- current time as a text.
pub record IntentExternals : Type 1 where
  pub load : IntentRequest → Option String
  pub now_text : String
  pub shapes : Shapes

-- The answer to a refused request, or the declaration to be created.
pub data Prepared : Type 0 where
  refusal : String → Prepared
  row : Declaration → Prepared

-- The arguments of `repo.create`.
unfoldable pub intent_row :
    Settings
    → Externals
    → ℕ
    → IntentRequest
    → List ParsedVolume
    → List Json
    → List ℤ
    → String
    → String
    → Result Declaration
intent_row settings ext id r volumes features bounds start_datetime end_datetime = do
  aircraft_id ← or_raise r.aircraft_id key_error
  start ← ext.arrow_get start_datetime
  stop ← ext.arrow_get end_datetime
  ok (record {
    id = id;
    operational_intent = some (arr (array (volume_dicts volumes)));
    flight_declaration_raw_geojson = some (
        obj (field "type" (str "FeatureCollection") (field "features" (arr (array features)) end)));
    type_of_operation = or_default r.type_of_operation 0;
    bounds = bounds;
    aircraft_id = aircraft_id;
    state = if settings.ussp_network_enabled then 0 else 1;
    originating_party = or_default r.originating_party "No Flight Information";
    submitted_by = r.submitted_by;
    approved_by = none;
    latest_telemetry_datetime = none;
    start_datetime = start;
    end_datetime = stop;
    is_approved = true;
    created_at = ext.now;
  })

-- Everything before the first write.
unfoldable pub prepare_intent :
    Settings → Externals → IntentExternals → ℕ → IntentRequest → Result Prepared
prepare_intent settings ext more id r = elim (more.load r) [
  | some errors ↦ ok (refusal errors)
  | none ↦ do
    vs ← elements r.operational_intent_volume4ds
    volumes ← parse_volume4ds_to_v4d_list vs
    (features, all_features) ← convert_volumes more.shapes volumes
    let start_datetime = or_default r.start_datetime more.now_text
    let end_datetime = or_default r.end_datetime more.now_text
    bad_dates ← validate_dates ext start_datetime end_datetime
    elim bad_dates [
      | some text ↦ ok (refusal text)
      | none ↦ do
        bounds ← more.shapes.bounds all_features
        d ← intent_row settings ext id r volumes features bounds start_datetime end_datetime
        ok (row d)
    ]
]

-- `intersection_results[str(fd.id)]`
abbrev pub result_of : ℕ → List (ℕ × DeconflictionResult) → Result DeconflictionResult
result_of id [] = raise key_error
result_of id ((k, result) ∷ rest) = if k == id then ok result else result_of id rest

abbrev pub answer_of : CreateResponse → Response
answer_of response = (created response, 200)

-- The deconfliction of a new row, and what follows from its result.
unfoldable pub decide_intent :
    {S : Type 0} → Settings → Option (Engine S) → Declaration → Service S Response
decide_intent settings engine fd =
    run_deconfliction engine settings.ussp_network_enabled (fd ∷ []) >>> λ results.
    calling (result_of fd.id results) >>> λ result.
    on_world (process_intersection_result settings fd result) >>> λ response.
    returning (answer_of response)

-- The row and its history, then the deconfliction.
unfoldable pub submit_intent :
    {S : Type 0} → Settings → Option (Engine S) → Declaration → Service S Response
submit_intent settings engine d = on_world (create d) >>> λ fd.
    on_world (
      add_state_history_entry fd.id 0 (if settings.ussp_network_enabled then 0 else 1)
        "Created Declaration")
    >>> λ _. decide_intent settings engine fd

unfoldable pub set_operational_intent :
    {S : Type 0}
    → Settings
    → Externals
    → IntentExternals
    → Option (Engine S)
    → ℕ
    → IntentRequest
    → Service S Response
set_operational_intent settings ext more engine id r =
    calling (prepare_intent settings ext more id r) >>> λ prepared. elim prepared [
      | refusal text ↦ returning (message text, 400)
      | row d ↦ submit_intent settings engine d
    ]
