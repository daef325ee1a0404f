-- ===== src/Conformance/Volumes.antt =====
-- `cast_to_volume4d` (flight_blender/services/conformance_svc.py): a volume of a stored operational
-- intent, read from its JSON. The dataclasses check nothing, so a leaf keeps its JSON value.
use flight_blender.Prelude.{Option, none, some, List, [], ◌∷◌, if◌then◌else◌}
use flight_blender.Exceptions.{index_error, Result, ok, raise, ◌>>=◌, traverse}
use flight_blender.Json.{Json, item, has_key, elements, truthy}

pub record LatLngPoint : Type 0 where
  pub lat : Json
  pub lng : Json

pub record Radius : Type 0 where
  pub value : Json
  pub units : Json

pub record Circle : Type 0 where
  pub center : LatLngPoint
  pub radius : Radius

pub record Altitude : Type 0 where
  pub value : Json
  pub reference : Json
  pub units : Json

pub record Time : Type 0 where
  pub format : Json
  pub value : Json

-- `outline_polygon` is the list of the polygon's vertices.
pub record Volume3d : Type 0 where
  pub outline_circle : Option Circle
  pub outline_polygon : Option (List LatLngPoint)
  pub altitude_lower : Altitude
  pub altitude_upper : Altitude

pub record Volume4d : Type 0 where
  pub volume : Volume3d
  pub time_start : Time
  pub time_end : Time

-- `list.pop()`
abbrev pub pop {ℓ} : {A : Type ℓ} → List A → Result (List A)
pop [] = raise index_error
pop (x ∷ []) = ok []
pop (x ∷ y ∷ r) = let rest = pop (y ∷ r) in rest >>= λ ys. ok (x ∷ ys)

abbrev pub read_point : Json → Result LatLngPoint
read_point v = do lat ← item "lat" v; lng ← item "lng" v; ok (record { lat = lat; lng = lng })

abbrev pub read_altitude : Json → Result Altitude
read_altitude v = do
  value ← item "value" v
  reference ← item "reference" v
  units ← item "units" v
  ok (record { value = value; reference = reference; units = units })

abbrev pub read_time : Json → Result Time
read_time v = do
  format ← item "format" v
  value ← item "value" v
  ok (record { format = format; value = value })

unfoldable pub read_polygon : Json → Result (Option (List LatLngPoint))
read_polygon v3 = do
  present ← has_key "outline_polygon" v3
  if present
      then (do
        outline ← item "outline_polygon" v3
        vertices ← item "vertices" outline
        vs ← elements vertices
        points ← traverse read_point vs
        kept ← pop points
        ok (some kept))
      else ok none

unfoldable pub read_circle : Json → Result (Option Circle)
read_circle v3 = do
  present ← has_key "outline_circle" v3
  if present
      then (do
        outline ← item "outline_circle" v3
        if truthy outline
            then (do
              center ← item "center" outline
              point ← read_point center
              r ← item "radius" outline
              value ← item "value" r
              units ← item "units" r
              ok (
                  some
                    (record { center = point; radius = record { value = value; units = units } })))
            else ok none)
      else ok none

unfoldable pub cast_to_volume4d : Json → Result Volume4d
unfolding read_polygon read_circle
cast_to_volume4d volume = do
  v3 ← item "volume" volume
  outline_polygon ← read_polygon v3
  outline_circle ← read_circle v3
  lower ← item "altitude_lower" v3
  altitude_lower ← read_altitude lower
  upper ← item "altitude_upper" v3
  altitude_upper ← read_altitude upper
  start ← item "time_start" volume
  time_start ← read_time start
  end ← item "time_end" volume
  time_end ← read_time end
  ok (record {
    volume = record {
      outline_circle = outline_circle;
      outline_polygon = outline_polygon;
      altitude_lower = altitude_lower;
      altitude_upper = altitude_upper;
    };
    time_start = time_start;
    time_end = time_end;
  })
