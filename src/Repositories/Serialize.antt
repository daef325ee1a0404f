-- ===== src/Repositories/Serialize.antt =====
-- `SQLAlchemyFlightDeclarationRepository.serialize` (repositories/flight_declarations_repo.py). The
-- GeoJSON of a row is taken to be there, as the modelled creations of rows write it.
use flight_blender.Prelude.{ℕ, ℤ, Bool, Option, String, List}
use flight_blender.Exceptions.{Result, ok, ◌>>=◌}
use flight_blender.Json.{Json, loads}
use flight_blender.World.{Declaration}

pub record SerializedDeclaration : Type 0 where
  pub id : ℕ
  pub operational_intent : Json
  pub originating_party : String
  pub type_of_operation : ℕ
  pub state : ℕ
  pub is_approved : Bool
  pub start_datetime : ℕ
  pub end_datetime : ℕ
  pub flight_declaration_geojson : Json
  pub flight_declaration_raw_geojson : Json
  pub bounds : List ℤ
  pub approved_by : Option String
  pub submitted_by : Option String

-- A text column that is no JSON raises.
unfoldable pub serialize : Declaration → Result SerializedDeclaration
serialize d = do
  operational_intent ← loads d.operational_intent
  geojson ← loads d.flight_declaration_raw_geojson
  ok (record {
    id = d.id;
    operational_intent = operational_intent;
    originating_party = d.originating_party;
    type_of_operation = d.type_of_operation;
    state = d.state;
    is_approved = d.is_approved;
    start_datetime = d.start_datetime;
    end_datetime = d.end_datetime;
    flight_declaration_geojson = geojson;
    flight_declaration_raw_geojson = geojson;
    bounds = d.bounds;
    approved_by = d.approved_by;
    submitted_by = d.submitted_by;
  })
