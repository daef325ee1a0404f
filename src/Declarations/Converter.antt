-- ===== src/Declarations/Converter.antt =====
-- `OperationalIntentsConverter` (flight_blender/services/flight_declarations_svc.py): from the volumes
-- of a request to those of a stored intent and to the features of its GeoJSON.
use flight_blender.Prelude.{
  ℤ, Option, none, some, String, List, [], ◌∷◌, ◌++◌, ◌==◌, length, if◌then◌else◌,
}
use flight_blender.Exceptions.{type_error, Result, ok, raise, ◌>>=◌, traverse, or_raise}
use flight_blender.Json.{
  Json, Fields, null, str, obj, arr, nil, end, field, lookup, keys, item, get_or, elements, truthy,
}
use flight_blender.Declarations.Intents.{array}
use flight_blender.Conformance.Volumes.{LatLngPoint, Altitude, Time}

-- The parsed volume. Its circle is a dict whose radius is an `Altitude`.
pub record ParsedCircle : Type 0 where
  pub center : LatLngPoint
  pub radius : Altitude

pub record ParsedVolume : Type 0 where
  pub outline_polygon : Option (List LatLngPoint)
  pub outline_circle : Option ParsedCircle
  pub altitude_lower : Altitude
  pub altitude_upper : Altitude
  pub time_start : Time
  pub time_end : Time

-- A call with `**fields`: every argument by its name, none missing and none left over.
abbrev argument : String → Fields → Result Json
argument name fs = or_raise (lookup name fs) type_error

abbrev make_altitude : Json → Result Altitude
make_altitude (obj fs) = do
  value ← argument "value" fs
  reference ← argument "reference" fs
  units ← argument "units" fs
  if length (keys fs) == 3
      then ok (record { value = value; reference = reference; units = units })
      else raise type_error
make_altitude _ = raise type_error

abbrev make_time : Json → Result Time
make_time (obj fs) = do
  format ← argument "format" fs
  value ← argument "value" fs
  if length (keys fs) == 2 then ok (record { format = format; value = value }) else raise type_error
make_time _ = raise type_error

abbrev parse_vertex : Json → Result LatLngPoint
parse_vertex v = do lat ← item "lat" v; lng ← item "lng" v; ok (record { lat = lat; lng = lng })

abbrev parse_polygon : Json → Result (Option (List LatLngPoint))
parse_polygon outline =
    if truthy outline
    then (do
      vertices ← get_or "vertices" (arr nil) outline
      vs ← elements vertices
      points ← traverse parse_vertex vs
      ok (some points))
    else ok none

abbrev parse_circle : Json → Result (Option ParsedCircle)
parse_circle outline =
    if truthy outline
    then (do
      center ← get_or "center" (obj end) outline
      radius ← get_or "radius" (obj end) outline
      lat ← get_or "lat" null center
      lng ← get_or "lng" null center
      value ← get_or "value" null radius
      reference ← get_or "reference" null radius
      units ← get_or "units" null radius
      ok (
          some (record {
            center = record { lat = lat; lng = lng };
            radius = record { value = value; reference = reference; units = units };
          })))
    else ok none

parse_volume : Json → Result ParsedVolume
parse_volume v = do
  v3 ← get_or "volume" (obj end) v
  polygon ← get_or "outline_polygon" null v3
  circle ← get_or "outline_circle" null v3
  outline_polygon ← parse_polygon polygon
  outline_circle ← parse_circle circle
  lower ← get_or "altitude_lower" (obj end) v3
  altitude_lower ← make_altitude lower
  upper ← get_or "altitude_upper" (obj end) v3
  altitude_upper ← make_altitude upper
  start ← get_or "time_start" (obj end) v
  time_start ← make_time start
  stop ← get_or "time_end" (obj end) v
  time_end ← make_time stop
  ok (record {
    outline_polygon = outline_polygon;
    outline_circle = outline_circle;
    altitude_lower = altitude_lower;
    altitude_upper = altitude_upper;
    time_start = time_start;
    time_end = time_end;
  })

unfoldable pub parse_volume4ds_to_v4d_list : List Json → Result (List ParsedVolume)
unfolding parse_volume
parse_volume4ds_to_v4d_list vs = traverse parse_volume vs

-- `asdict`
abbrev point_dict : LatLngPoint → Json
point_dict p = obj (field "lat" p.lat (field "lng" p.lng end))

abbrev altitude_dict : Altitude → Json
altitude_dict a =
    obj (field "value" a.value (field "reference" a.reference (field "units" a.units end)))

abbrev time_dict : Time → Json
time_dict t = obj (field "format" t.format (field "value" t.value end))

abbrev point_dicts : List LatLngPoint → List Json
point_dicts [] = []
point_dicts (p ∷ ps) = point_dict p ∷ point_dicts ps

abbrev polygon_dict : Option (List LatLngPoint) → Json
polygon_dict none = null
polygon_dict (some ps) = obj (field "vertices" (arr (array (point_dicts ps))) end)

abbrev circle_dict : Option ParsedCircle → Json
circle_dict none = null
circle_dict (some c) =
    obj (field "center" (point_dict c.center) (field "radius" (altitude_dict c.radius) end))

unfoldable pub volume_dict : ParsedVolume → Json
volume_dict v = obj (
    field "volume"
      (obj (
        field "outline_polygon" (polygon_dict v.outline_polygon) (
          field "altitude_lower" (altitude_dict v.altitude_lower) (
            field "altitude_upper" (altitude_dict v.altitude_upper)
              (field "outline_circle" (circle_dict v.outline_circle) end)))))
      (field "time_start" (time_dict v.time_start) (field "time_end" (time_dict v.time_end) end)))

abbrev pub volume_dicts : List ParsedVolume → List Json
volume_dicts [] = []
volume_dicts (v ∷ vs) = let rest = volume_dicts vs in volume_dict v ∷ rest

-- Shapely and pyproj: the polygon of a ring (longitude first), its orientation, the circle of a radius
-- in metres around a point (`utm_converter` there and back, and `buffer` between), the mapping of a
-- shape to GeoJSON, and the bounds of a union.
pub record Shapes : Type 1 where
  pub Shape : Type 0
  pub polygon : List (Json × Json) → Result Shape
  pub orient : Shape → Shape
  pub circle : LatLngPoint → Json → Result Shape
  pub mapping : Shape → Json
  pub bounds : List Shape → Result (List ℤ)

abbrev ring : List LatLngPoint → List (Json × Json)
ring [] = []
ring (p ∷ ps) = (p.lng, p.lat) ∷ ring ps

abbrev feature : Time → Time → Json → Json
feature start stop geometry = obj (
    field "type" (str "Feature") (
      field "geometry" geometry (
        field "properties" (obj (field "time_start" start.value (field "time_end" stop.value end)))
          end)))

module _ (shapes : Shapes) where
  open shapes use {Shape, polygon, orient, circle, mapping}

  -- The features of a volume, and the shapes that the converter collects.
  unfoldable pub convert_volume : ParsedVolume → Result (List Json × List Shape)
  convert_volume v = do
    (fs, ss) ← elim v.outline_polygon [
      | none ↦ ok ([], [])
      | some ps ↦ polygon (ring ps) >>= λ s.
          ok (feature v.time_start v.time_end (mapping (orient s)) ∷ [], s ∷ [])
    ]
    (gs, ts) ← elim v.outline_circle [
      | none ↦ ok ([], [])
      | some c ↦ circle c.center c.radius.value >>= λ s.
          ok (feature v.time_start v.time_end (mapping s) ∷ [], s ∷ [])
    ]
    ok (fs ++ gs, ss ++ ts)

  -- `convert_operational_intent_to_geo_json` over all volumes
  unfoldable pub convert_volumes : List ParsedVolume → Result (List Json × List Shape)
  convert_volumes [] = ok ([], [])
  convert_volumes (v ∷ vs) =
      let rest = convert_volumes vs in
      convert_volume v >>= λ (fs, ss). rest >>= λ (gs, ts). ok (fs ++ gs, ss ++ ts)
