-- ===== src/Peers/Tables.antt =====
-- The three tables of peer intents (models/flight_declarations_orm.py) and the payloads that are
-- written to them.
use flight_blender.Prelude.{ℕ, ℤ, Option, String, List}
use flight_blender.Json.{Json}

-- `PeerOperationalIntentDetailORM`, the columns that are written
pub record PeerDetail : Type 0 where
  pub id : ℕ
  pub volumes : Json
  pub off_nominal_volumes : Json
  pub priority : ℕ

-- `PeerOperationalIntentReferenceORM`, the columns that are written
pub record PeerReference : Type 0 where
  pub id : ℕ
  pub uss_availability : String
  pub ovn : Option String
  pub manager : String
  pub uss_base_url : String
  pub version : String
  pub state : String
  pub time_start : ℕ
  pub time_end : ℕ
  pub subscription_id : String

-- `PeerCompositeOperationalIntentORM`; its own id is of no use to the code.
pub record PeerComposite : Type 0 where
  pub bounds : String
  pub start_datetime : ℕ
  pub end_datetime : ℕ
  pub alt_max : ℤ
  pub alt_min : ℤ
  pub operational_intent_details_id : ℕ
  pub operational_intent_reference_id : ℕ

pub record PeerTables : Type 0 where
  pub details : List PeerDetail
  pub references : List PeerReference
  pub composites : List PeerComposite

-- What is written to a composite. The times and altitudes are decoded already.
pub record CompositePayload : Type 0 where
  pub bounds : String
  pub start_datetime : ℕ
  pub end_datetime : ℕ
  pub alt_max : ℤ
  pub alt_min : ℤ
