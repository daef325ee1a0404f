-- ===== src/Declarations/Requests.antt =====
-- What the operations of the service take and answer. A request is the decoded body after the schema
-- has seen it, by the fields that the code reads.
use flight_blender.Prelude.{ℕ, ℤ, Bool, Option, String, List}
use flight_blender.Exceptions.{Result}
use flight_blender.Json.{Json}

pub record Request : Type 0 where
  pub originating_party : Option String
  pub submitted_by : Option String
  pub approved_by : Option String
  pub aircraft_id : Option String
  pub start_datetime : String
  pub end_datetime : String
  pub flight_declaration_geo_json : Json
  pub type_of_operation : Option ℕ
  pub flight_state : Option ℕ

pub record CreateResponse : Type 0 where
  pub id : ℕ
  pub message : String
  pub is_approved : Bool
  pub state : ℕ

pub data Body : Type 0 where
  message : String → Body
  detail : String → Body
  created : CreateResponse → Body
  submitted : ℕ → Body
  state_set : ℕ → Option String → Body
  approval_set : Bool → Option String → Body

-- A body with its HTTP status.
abbrev pub Response : Type 0
Response = Body × ℕ

-- What the service takes from the libraries and the surroundings: the clock, `arrow.get`, the schema
-- (marshmallow: the messages, or none where the request passes), `shapely.geometry.shape` with
-- `is_valid`, and the bounds of `unary_union`.
pub record Externals : Type 0 where
  pub now : ℕ
  pub arrow_get : String → Result ℕ
  pub load : Request → Option String
  pub shape_is_valid : Json → Result Bool
  pub union_bounds : List Json → Result (List ℤ)
