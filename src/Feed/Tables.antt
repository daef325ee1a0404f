-- ===== src/Feed/Tables.antt =====
-- The tables of the feed (models/flight_feed_orm.py) and an observation on its way to them. An
-- identifier is its number, so that the nil UUID is 0; the id of a row is left out, where nothing
-- reads it.
use flight_blender.Prelude.{ℕ, ℤ, Bool, Option, String, List}
use flight_blender.Json.{Json}

-- `SingleAirtrafficObservation` (domain_types/flight_feed.py); an empty session id is `none`.
pub record Observation : Type 0 where
  pub lat_dd : ℤ
  pub lon_dd : ℤ
  pub altitude_mm : ℤ
  pub traffic_source : ℕ
  pub source_type : ℕ
  pub icao_address : String
  pub timestamp : ℕ
  pub metadata : Json
  pub session_id : Option ℕ

-- `FlightObservationORM`
pub record ObservationRow : Type 0 where
  pub session_id : ℕ
  pub latitude_dd : ℤ
  pub longitude_dd : ℤ
  pub altitude_mm : ℤ
  pub traffic_source : ℕ
  pub source_type : ℕ
  pub icao_address : String
  pub raw_metadata : Json
  pub sensor_timestamp : Option ℕ
  pub created_at : ℕ

-- `SignedTelmetryPublicKeyORM`
pub record PublicKey : Type 0 where
  pub id : ℕ
  pub key_id : String
  pub url : String
  pub is_active : Bool
  pub updated_at : ℕ

pub record FeedDb : Type 0 where
  pub observations : List ObservationRow
  pub public_keys : List PublicKey
