-- ===== src/Conformance/Engine.antt =====
-- `FlightBlenderConformanceEngine` (flight_blender/services/conformance_svc.py): the checks of an
-- operation, each answered with its code. Shapely is a parameter.
use flight_blender.Prelude.{
  Option, ℕ, ℤ, ◌+◌, Bool, true, false, not, ◌&&◌, ◌||◌, none, some, String, List, [], ◌∷◌, str_eq,
  ltb, leb, leb_ℤ, ◌==◌, elem, any, select, find, is_some, if◌then◌else◌,
}
use flight_blender.Exceptions.{
  attribute_error, index_error, key_error, type_error, Result, ok, raise, ◌>>=◌, traverse, or_raise,
}
use flight_blender.Domain.{Settings}
use flight_blender.Json.{
  is_text, Items, Json, null, obj, arr, nil, end, loads, item, get_or, elements, number,
}
use flight_blender.World.{Declaration, GeoFence, Db}
use flight_blender.Conformance.Volumes.{LatLngPoint, cast_to_volume4d}

-- Shapely: polygons from their vertices, longitude first, and the test of a point. A ring with too
-- few vertices raises.
pub record Geometry : Type 1 where
  pub Polygon : Type 0
  pub polygon : List (ℤ × ℤ) → Result Polygon
  pub within : ℤ × ℤ → Polygon → Bool

unfoldable pub is_time_between : ℕ → ℕ → ℕ → Bool
is_time_between begin_time end_time check_time =
    if ltb begin_time end_time
    then leb begin_time check_time && leb check_time end_time
    else leb begin_time check_time || leb check_time end_time

-- `any` over a loop that returns at its first hit.
abbrev pub first_hit {ℓ} : {A : Type ℓ} → (A → Result Bool) → List A → Result Bool
first_hit f [] = ok false
first_hit f (x ∷ xs) = let rest = first_hit f xs in f x >>= λ hit. if hit then ok true else rest

-- `v[0]`
abbrev pub first_item : Json → Result Json
first_item (arr nil) = raise index_error
first_item (arr (Items.cons x xs)) = ok x
first_item (Json.str String.[]) = raise index_error
first_item (Json.str (String.◌∷◌ c s)) = ok (Json.str (String.◌∷◌ c String.[]))
first_item (obj fs) = raise key_error
first_item _ = raise type_error

-- One vertex of a GeoJSON ring: longitude, latitude and whatever follows.
abbrev pub read_vertex : Json → Result (ℤ × ℤ)
read_vertex v = elements v >>= λ vs. elim vs [
  | [] ↦ raise index_error
  | x ∷ r ↦ elim r [
    | [] ↦ raise index_error
    | y ∷ s ↦ number x >>= λ lng. number y >>= λ lat. ok (lng, lat)
  ]
]

module _ (g : Geometry) where
  open g use {Polygon, polygon, within}

  pub record PolygonAltitude : Type 0 where
    pub outline : Polygon
    pub altitude_upper : Json
    pub altitude_lower : Json

  unfoldable pub point_of : LatLngPoint → Result (ℤ × ℤ)
  point_of v = number v.lng >>= λ lng. number v.lat >>= λ lat. ok (lng, lat)

  -- The body of the loop that builds the polygons: a volume with no polygon raises.
  unfoldable pub polygon_altitude : Json → Result PolygonAltitude
  unfolding point_of
  polygon_altitude v = do
    v4d ← cast_to_volume4d v
    vertices ← or_raise v4d.volume.outline_polygon attribute_error
    points ← traverse point_of vertices
    outline ← polygon points
    ok (record {
      outline = outline;
      altitude_upper = v4d.volume.altitude_upper.value;
      altitude_lower = v4d.volume.altitude_lower.value;
    })

  -- `p.altitude_lower <= altitude <= p.altitude_upper`
  unfoldable pub altitude_conformant : ℤ → PolygonAltitude → Result Bool
  altitude_conformant altitude p = do
    lower ← number p.altitude_lower
    if leb_ℤ lower altitude
        then (do upper ← number p.altitude_upper; ok (leb_ℤ altitude upper))
        else ok false

  -- `_is_within_geofence`
  unfoldable pub is_within_geofence : ℤ × ℤ → Json → Result Bool
  is_within_geofence location coordinates = do
    vs ← elements coordinates
    ring ← traverse read_vertex vs
    geofence_polygon ← polygon ring
    ok (within location geofence_polygon)

  -- A feature is breached by its polygon, or by a polygon of its multipolygon.
  unfoldable pub feature_breached : ℤ × ℤ → Json → Result Bool
  unfolding is_within_geofence
  feature_breached location feature = do
    geometry ← get_or "geometry" (obj end) feature
    geofence_type ← get_or "type" null geometry
    coordinates ← get_or "coordinates" (arr nil) geometry
    if is_text "Polygon" geofence_type
        then (do ring ← first_item coordinates; is_within_geofence location ring)
        else if is_text "MultiPolygon" geofence_type
        then (do
          polygons ← elements coordinates
          first_hit (λ p. first_item p >>= λ ring. is_within_geofence location ring) polygons)
        else ok false

  unfoldable pub fence_breached : ℤ × ℤ → GeoFence → Result Bool
  unfolding feature_breached
  fence_breached location fence = do
    geofence_geojson ← loads fence.raw_geo_fence
    features ← get_or "features" (arr nil) geofence_geojson
    fs ← elements features
    first_hit (feature_breached location) fs

  -- The checks of a position against the volumes and the active geofences.
  unfoldable pub check_position : List GeoFence → Json → ℤ × ℤ → ℤ → Result ℕ
  unfolding polygon_altitude altitude_conformant fence_breached
  check_position geofences volumes location altitude = do
    vs ← elements volumes
    all_polygon_altitudes ← traverse polygon_altitude vs
    within_altitudes ← traverse (altitude_conformant altitude) all_polygon_altitudes
    if not (any (λ b. b) within_altitudes)
        then ok 8
        else if not (any (λ (p : PolygonAltitude). within location p.outline) all_polygon_altitudes)
        then ok 7
        else (do
          breached ← first_hit (fence_breached location) geofences
          ok (if breached then 9 else 100))

  module _ (now : ℕ) (db : Db) (aircraft_id : String) (location : ℤ × ℤ) (altitude : ℤ) where
    -- The checks of a declaration, from the aircraft to the geofences. The stored intent is decoded before the first of them.
    unfoldable pub check_declaration : Declaration → Result ℕ
    check_declaration d = do
      operational_intent_details ← loads d.operational_intent
      if not (str_eq d.aircraft_id aircraft_id)
          then ok 3
          else if elem d.state (0 ∷ 5 ∷ 6 ∷ 7 ∷ 8 ∷ [])
          then ok 4
          else if not (elem d.state (2 ∷ 3 ∷ 4 ∷ []))
          then ok 5
          else if not (is_time_between d.start_datetime d.end_datetime now)
          then ok 6
          else (do
            all_volumes ← item "volumes" operational_intent_details
            check_position (select (λ f. f.status == 0) db.fences) all_volumes location altitude)

    unfoldable pub check_found : Option Declaration → Bool → Result ℕ
    check_found none authorised = ok 2
    check_found (some d) authorised = if authorised then check_declaration d else ok 2

    -- `is_operation_conformant_via_telemetry`: the checks in their order; 100 is conformant.
    unfoldable pub is_operation_conformant_via_telemetry : Settings → ℕ → Result ℕ
    unfolding check_found check_declaration
    is_operation_conformant_via_telemetry settings id =
        check_found (find (λ d. d.id == id) db.declarations) (
          not settings.ussp_network_enabled
          || is_some (find (λ r. r.declaration_id == id) db.references))

abbrev pub fifteen_seconds : ℕ
fifteen_seconds = 15000000

-- `check_flight_operational_intent_reference_conformance`: the checks of the authorisation; 1 is conformant.
unfoldable pub check_flight_operational_intent_reference_conformance : Settings → ℕ → Db → ℕ → ℕ
check_flight_operational_intent_reference_conformance settings now db id =
    let exists : Bool = is_some (find (λ r. r.declaration_id == id) db.references) in
    if settings.ussp_network_enabled && not exists
    then 13
    else elim (find (λ d. d.id == id) db.declarations) [
      | none ↦ 12
      | some d ↦
          if not (elem d.state (2 ∷ 3 ∷ 4 ∷ [])) then 12 else elim d.latest_telemetry_datetime [
            | none ↦ 10
            | some t ↦
                if leb now (t + fifteen_seconds) && leb t (now + fifteen_seconds) then 1 else 11
          ]
    ]
