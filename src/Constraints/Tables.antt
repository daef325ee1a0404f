-- ===== src/Constraints/Tables.antt =====
-- The tables of models/constraint_orm.py and of models/geo_fence_orm.py, and the payloads of the
-- writes. Times are decoded, and the dataclasses of a text column are dumped already.
use flight_blender.Prelude.{ℕ, ℤ, Bool, Option, String, List}

-- `GeoFenceORM`
pub record GeofenceRow : Type 0 where
  pub id : ℕ
  pub raw_geo_fence : Option String
  pub geozone : Option String
  pub upper_limit : ℤ
  pub lower_limit : ℤ
  pub altitude_ref : ℕ
  pub name : String
  pub bounds : String
  pub status : ℕ
  pub message : String
  pub is_test_dataset : Bool
  pub start_datetime : ℕ
  pub end_datetime : ℕ

-- `ConstraintDetailORM`, but for `_type`, which no write of the repository sets
pub record ConstraintDetail : Type 0 where
  pub id : ℕ
  pub geofence_id : Option ℕ
  pub volumes : String
  pub created_at : ℕ

-- `ConstraintReferenceORM`
pub record ConstraintReference : Type 0 where
  pub id : ℕ
  pub flight_declaration_id : Option ℕ
  pub geofence_id : Option ℕ
  pub uss_availability : String
  pub ovn : Option String
  pub manager : Option String
  pub uss_base_url : String
  pub version : String
  pub time_start : ℕ
  pub time_end : ℕ
  pub is_live : Bool
  pub created_at : ℕ

-- `CompositeConstraintORM`; its own id is of no use to the code.
pub record CompositeConstraint : Type 0 where
  pub declaration_id : ℕ
  pub bounds : String
  pub start_datetime : ℕ
  pub end_datetime : ℕ
  pub alt_max : ℤ
  pub alt_min : ℤ
  pub constraint_reference_id : ℕ
  pub constraint_detail_id : ℕ

pub record ConstraintDb : Type 0 where
  pub geofences : List GeofenceRow
  pub details : List ConstraintDetail
  pub references : List ConstraintReference
  pub composites : List CompositeConstraint

-- The reference that a peer or the DSS gives, with every attribute that the write reads
pub record ReferencePayload : Type 0 where
  pub id : ℕ
  pub ovn : Option String
  pub uss_availability : String
  pub uss_base_url : String
  pub version : String
  pub manager : Option String
  pub time_start : ℕ
  pub time_end : ℕ
