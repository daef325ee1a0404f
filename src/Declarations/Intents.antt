-- ===== src/Declarations/Intents.antt =====
-- `_build_partial_operational_intent` (flight_blender/services/flight_declarations_svc.py): the JSON
-- that a declaration stores, and what the conformance engine makes of it.
use flight_blender.Domain.{Settings}
use flight_blender.Prelude.{
  ℕ, elem, not, if◌then◌else◌, ℤ, pos, Option, none, some, String, List, [], ◌∷◌,
}
use flight_blender.Exceptions.{key_error, or_raise, Result, ok, ◌>>=◌, traverse}
use flight_blender.Json.{
  Json, null, num, str, arr, obj, nil, cons, end, field, Items, item, get_or, elements,
}
use flight_blender.World.{Declaration}
use flight_blender.Declarations.Requests.{Request, Externals}

abbrev pub array : List Json → Items
array [] = nil
array (v ∷ vs) = cons v (array vs)

-- One entry of `volumes`, from a feature.
abbrev pub build_volume : String → String → Json → Result Json
build_volume start_datetime end_datetime feature = do
  props ← get_or "properties" (obj end) feature
  geometry ← get_or "geometry" null feature
  lower ← get_or "min_altitude" null props
  upper ← get_or "max_altitude" null props
  ok (
      obj (
        field "outline_polygon" geometry (
          field "altitude_lower" lower (
            field "altitude_upper" upper (
              field "time_start" (str start_datetime) (field "time_end" (str end_datetime) end))))))

abbrev pub accepted : List Json → Json
accepted volumes = obj (
    field "state" (str "Accepted") (
      field "priority" (num (pos 0))
        (field "volumes" (arr (array volumes)) (field "off_nominal_volumes" (arr nil) end))))

-- The intent with the bounds of all geometries, from the features.
unfoldable pub intent_of_features : Externals → Request → List Json → Result (Json × List ℤ)
intent_of_features ext r features = do
  geometries ← traverse (item "geometry") features
  bounds ← ext.union_bounds geometries
  volumes ← traverse (build_volume r.start_datetime r.end_datetime) features
  ok (accepted volumes, bounds)

unfoldable pub build_partial_operational_intent : Externals → Request → Result (Json × List ℤ)
build_partial_operational_intent ext r = do
  features ← get_or "features" (arr nil) r.flight_declaration_geo_json
  fs ← elements features
  intent_of_features ext r fs

abbrev pub or_default {ℓ} : {A : Type ℓ} → Option A → A → A
or_default none d = d
or_default (some a) d = a

-- The row that `_create_flight_declaration_record` writes. The default of the state depends on the
-- network, and any given state is taken; only 0 and 8 are not approved.
unfoldable pub new_declaration : Settings → Externals → ℕ → Request → Result Declaration
unfolding build_partial_operational_intent
new_declaration settings ext id r = do
  (partial_op_int, bounds) ← build_partial_operational_intent ext r
  aircraft_id ← or_raise r.aircraft_id key_error
  start ← ext.arrow_get r.start_datetime
  stop ← ext.arrow_get r.end_datetime
  let provided_state = or_default r.flight_state (if settings.ussp_network_enabled then 0 else 1)
  ok (record {
    id = id;
    operational_intent = some partial_op_int;
    flight_declaration_raw_geojson = some r.flight_declaration_geo_json;
    type_of_operation = or_default r.type_of_operation 0;
    bounds = bounds;
    aircraft_id = aircraft_id;
    state = provided_state;
    originating_party = or_default r.originating_party "No Flight Information";
    submitted_by = r.submitted_by;
    approved_by = r.approved_by;
    latest_telemetry_datetime = none;
    start_datetime = start;
    end_datetime = stop;
    is_approved = not (elem provided_state (0 ∷ 8 ∷ []));
    created_at = ext.now;
  })
