-- ===== src/Feed/Repository.antt =====
-- `SQLAlchemyFlightFeedRepository` (repositories/flight_feed_repo.py). `now` is the time that a default
-- of a column reads.
use flight_blender.Prelude.{
  ℕ, ◌*◌, ◌-◌, Bool, true, false, not, ◌&&◌, Option, none, some, String, List, [], ◌∷◌, ◌++◌, ◌==◌,
  leb, ltb, if◌then◌else◌, find, select, map, is_some,
}
use flight_blender.World.{Declaration}
use flight_blender.Repositories.Declarations.{has_id}
use flight_blender.Repositories.Tables.{order_by, order_by_desc, set_where, delete_where}
use flight_blender.Surveillance.Repository.{is_between}
use flight_blender.Feed.Tables.{Observation, ObservationRow, PublicKey, FeedDb}

-- `_normalize_timestamp` of a whole number: seconds, milliseconds or microseconds by its size. The
-- result is in microseconds, with `none` where the year is past 9999.
unfoldable pub normalize_timestamp : ℕ → Option ℕ
normalize_timestamp ts =
    if ts == 0
    then none
    else let micros =
        if ltb 1000000000000000 ts
        then ts
        else if ltb 1000000000000 ts
        then ts * 1000
        else ts * 1000000 in
      if ltb micros 253402300800000000 then some micros else none

-- `session_id or "00000000-..."`
abbrev session_or_nil : Option ℕ → ℕ
session_or_nil none = 0
session_or_nil (some id) = id

unfoldable pub row_of : ℕ → Observation → ObservationRow
row_of now o = record {
  session_id = session_or_nil o.session_id;
  latitude_dd = o.lat_dd;
  longitude_dd = o.lon_dd;
  altitude_mm = o.altitude_mm;
  traffic_source = o.traffic_source;
  source_type = o.source_type;
  icao_address = o.icao_address;
  raw_metadata = o.metadata;
  sensor_timestamp = none;
  created_at = now;
}

unfoldable pub write_flight_observation : ℕ → Observation → FeedDb → FeedDb
unfolding normalize_timestamp row_of
write_flight_observation now o db = record db {
  observations =
      db.observations
      ++ record (row_of now o) { sensor_timestamp = normalize_timestamp o.timestamp } ∷ [];
}

-- The timestamp is not written here.
unfoldable pub bulk_write_flight_observations : ℕ → List Observation → FeedDb → FeedDb
unfolding row_of
bulk_write_flight_observations now os db = record db {
  observations = db.observations ++ map (row_of now) os;
}

unfoldable pub get_recent_flight_observations : ℕ → FeedDb → List ObservationRow
get_recent_flight_observations cutoff db =
    order_by (λ r. r.created_at) (select (λ r. leb cutoff r.created_at) db.observations)

unfoldable pub get_closest_flight_observation_for_now : ℕ → FeedDb → List ObservationRow
get_closest_flight_observation_for_now now db =
    select (λ r. is_between (now - 1000000) now r.created_at) db.observations

unfoldable pub get_flight_observations_by_session : ℕ → ℕ → FeedDb → List ObservationRow
get_flight_observations_by_session session_id after db =
    order_by (λ r. r.created_at)
      (select
        (λ r. r.session_id == session_id && leb after r.created_at && not (r.traffic_source == 11))
        db.observations)

unfoldable pub get_all_flight_observations_in_window : ℕ → ℕ → FeedDb → List ObservationRow
get_all_flight_observations_in_window start_time end_time db =
    select (λ r. is_between start_time end_time r.created_at) db.observations

unfoldable pub get_latest_flight_observation_by_session : ℕ → FeedDb → Option ObservationRow
get_latest_flight_observation_by_session session_id db =
    elim (order_by_desc (λ r. r.created_at)
      (select (λ r. r.session_id == session_id) db.observations)) [ [] ↦ none | r ∷ rs ↦ some r ]

unfoldable pub get_flight_observation_dicts : FeedDb → List ObservationRow
get_flight_observation_dicts db = order_by (λ r. r.created_at) db.observations

unfoldable pub get_temporal_flight_observations_by_session_dicts :
    ℕ → ℕ → FeedDb → List ObservationRow
get_temporal_flight_observations_by_session_dicts session_id cutoff db =
    order_by (λ r. r.created_at)
      (select (λ r. r.session_id == session_id && leb cutoff r.created_at) db.observations)

unfoldable pub get_active_rid_observations_for_view : ℕ → ℕ → FeedDb → List ObservationRow
get_active_rid_observations_for_view start_time end_time db =
    select (λ r. is_between start_time end_time r.created_at) db.observations

unfoldable pub get_active_rid_observations_for_session_between_interval :
    ℕ → ℕ → ℕ → FeedDb → List ObservationRow
get_active_rid_observations_for_session_between_interval session_id start_time end_time db =
    order_by (λ r. r.created_at)
      (select (λ r. r.session_id == session_id && is_between start_time end_time r.created_at)
        db.observations)

unfoldable pub delete_all_flight_observations : FeedDb → FeedDb
delete_all_flight_observations db = record db { observations = [] }

unfoldable pub get_signed_telemetry_public_key : ℕ → FeedDb → Option PublicKey
get_signed_telemetry_public_key pk db = find (λ k. k.id == pk) db.public_keys

-- `id` is the one that is drawn.
unfoldable pub create_signed_telemetry_public_key :
    ℕ → ℕ → String → String → Bool → FeedDb → PublicKey × FeedDb
create_signed_telemetry_public_key now id key_id url is_active db =
    let key : PublicKey = record {
      id = id;
      key_id = key_id;
      url = url;
      is_active = is_active;
      updated_at = now;
    } in
    (key, record db { public_keys = db.public_keys ++ key ∷ [] })

-- The fields that are set are a function on the row.
unfoldable pub update_signed_telemetry_public_key :
    ℕ → ℕ → (PublicKey → PublicKey) → FeedDb → Option PublicKey × FeedDb
unfolding get_signed_telemetry_public_key
update_signed_telemetry_public_key now pk fields db = elim (get_signed_telemetry_public_key pk db) [
  | none ↦ (none, db)
  | some key ↦ (
    some (record (fields key) { updated_at = now }),
    record db {
      public_keys =
          set_where (λ k. k.id == pk) (λ k. record (fields k) { updated_at = now }) db.public_keys;
    },
  )
]

unfoldable pub delete_signed_telemetry_public_key : ℕ → FeedDb → Bool × FeedDb
unfolding get_signed_telemetry_public_key
delete_signed_telemetry_public_key pk db =
    if is_some (get_signed_telemetry_public_key pk db)
    then (true, record db { public_keys = delete_where (λ k. k.id == pk) db.public_keys })
    else (false, db)

unfoldable pub get_active_signed_telemetry_public_keys : FeedDb → List PublicKey
get_active_signed_telemetry_public_keys db = select (λ k. k.is_active) db.public_keys

-- An id that is no UUID is `none`.
unfoldable pub check_flight_declaration_active : Option ℕ → ℕ → List Declaration → Bool
check_flight_declaration_active none now ds = false
check_flight_declaration_active (some id) now ds =
    is_some (find (λ d. d.id == id && leb d.start_datetime now && leb now d.end_datetime) ds)

unfoldable pub get_flight_declaration_by_id : Option ℕ → List Declaration → Option Declaration
get_flight_declaration_by_id none ds = none
get_flight_declaration_by_id (some id) ds = find (has_id id) ds
