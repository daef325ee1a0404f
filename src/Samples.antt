-- ===== src/Samples.antt =====
-- The concrete data of the examples: settings, a declaration, its world and a flat geometry.
use flight_blender.Prelude.{ℕ, ℤ, pos, true, false, none, some, List, [], ◌∷◌, ◌&&◌, leb_ℤ}
use flight_blender.Exceptions.{index_error, ok, raise}
use flight_blender.Json.{Json, num, str, arr, obj, nil, cons, end, field}
use flight_blender.Domain.{Settings}
use flight_blender.Scd.Dss.{Dss}
use flight_blender.World.{Declaration, OpintReference, GeoFence, Db, World}
use flight_blender.Conformance.Engine.{Geometry}

abbrev pub offline : Settings
offline = record {
  ussp_network_enabled = false;
  enable_conformance_monitoring = true;
  auto_submit_to_dss = true;
  amqp_url = "";
}

abbrev pub online : Settings
online = record {
  ussp_network_enabled = true;
  enable_conformance_monitoring = true;
  auto_submit_to_dss = true;
  amqp_url = "amqp://broker";
}

abbrev point : ℕ → ℕ → Json
point lat lng = obj (field "lat" (num (pos lat)) (field "lng" (num (pos lng)) end))

abbrev level : ℕ → Json
level n =
    obj (field "value" (num (pos n)) (field "reference" (str "W84") (field "units" (str "M") end)))

abbrev moment : Json
moment = obj (field "format" (str "RFC3339") (field "value" (str "2026-01-01T00:00:00Z") end))

-- A volume over the square from the first number to the second, between two altitudes; the last
-- vertex is the one that the reader drops.
abbrev pub square : ℕ → ℕ → ℕ → ℕ → Json
square a b low high = obj (
    field "volume"
      (obj (
        field "outline_polygon"
          (obj (
            field "vertices" (arr (cons (point a a) (cons (point b b) (cons (point a a) nil))))
              end))
          (field "altitude_lower" (level low) (field "altitude_upper" (level high) end))))
      (field "time_start" moment (field "time_end" moment end)))

-- Polygons as the boxes between their first two vertices.
abbrev pub boxes : Geometry
boxes = record {
  Polygon = (ℤ × ℤ) × (ℤ × ℤ);
  polygon = λ vs. elim vs [
    | [] ↦ raise index_error
    | v ∷ ws ↦ elim ws [ [] ↦ raise index_error | w ∷ _ ↦ ok (v, w) ]
  ];
  within =
      λ p box. leb_ℤ box.0.0 p.0 && leb_ℤ p.0 box.1.0 && leb_ℤ box.0.1 p.1 && leb_ℤ p.1 box.1.1;
}

-- Operation 7 in a state, from 100 to 200, last heard of at 150.
abbrev pub operation : ℕ → Declaration
operation state = record {
  id = 7;
  operational_intent = some (obj (field "volumes" (arr (cons (square 0 10 0 120) nil)) end));
  flight_declaration_raw_geojson = none;
  type_of_operation = 0;
  bounds = [];
  aircraft_id = "drone";
  state = state;
  originating_party = "operator";
  submitted_by = none;
  approved_by = none;
  latest_telemetry_datetime = some 150;
  start_datetime = 100;
  end_datetime = 200;
  is_approved = true;
  created_at = 50;
}

abbrev pub reference : OpintReference
reference = record { id = 70; declaration_id = 7; ovn = some "ovn"; state = "Accepted" }

abbrev pub fence : ℕ → ℕ → ℕ → List ℤ → GeoFence
fence id start stop bounds = record {
  id = id;
  raw_geo_fence = none;
  bounds = bounds;
  status = 1;
  is_test_dataset = false;
  start_datetime = start;
  end_datetime = stop;
  created_at = 0;
}

abbrev pub tables : ℕ → Db
tables state = record {
  declarations = operation state ∷ [];
  tracking = [];
  conformance_records = [];
  references = reference ∷ [];
  fences = [];
}

-- A token service that answers and a DSS that accepts every deletion.
abbrev pub accepting : Dss
accepting = record {
  get_auth_token = ok (obj (field "access_token" (str "token") end));
  delete = λ id version. ok (record {
    status_code = 200;
    json = ok (
        obj (
          field "subscribers" (arr nil) (field "operational_intent_reference" (num (pos id)) end)));
  });
}

abbrev pub flying : ℕ → World
flying state = record {
  db = tables state;
  messages = [];
  calls = [];
  dss = accepting;
  parse_stored = λ id. ok tt;
}

abbrev pub nothing : World
nothing = record {
  db = record {
    declarations = [];
    tracking = [];
    conformance_records = [];
    references = [];
    fences = [];
  };
  messages = [];
  calls = [];
  dss = accepting;
  parse_stored = λ id. ok tt;
}
