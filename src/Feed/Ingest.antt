-- ===== src/Feed/Ingest.antt =====
-- How observations reach the table: `set_air_traffic` and `bulk_set_air_traffic` of
-- `FlightFeedOperations`, the dispatcher and the tasks (tasks/flight_feed_task.py). `J` is a decoded
-- JSON value of an observation, `encode` is `asdict`, and `parse` is dacite's `from_dict`, with `none`
-- for its exceptions.
use flight_blender.Prelude.{
  ℕ, zero, suc, ℤ, Option, none, some, String, List, [], ◌∷◌, ◌++◌, if◌then◌else◌, is_empty, map,
  take, drop, length,
}
use flight_blender.Json.{Json}
use flight_blender.Feed.Tables.{Observation, FeedDb}
use flight_blender.Feed.Repository.{write_flight_observation, bulk_write_flight_observations}

-- `ObservationIn`
pub record ObservationIn : Type 0 where
  pub lat_dd : ℤ
  pub lon_dd : ℤ
  pub altitude_mm : ℤ
  pub icao_address : String
  pub traffic_source : ℕ
  pub timestamp : ℕ
  pub source_type : ℕ
  pub metadata : Json

unfoldable pub to_observation : ℕ → ObservationIn → Observation
to_observation session_id o = record {
  session_id = some session_id;
  lat_dd = o.lat_dd;
  lon_dd = o.lon_dd;
  altitude_mm = o.altitude_mm;
  traffic_source = o.traffic_source;
  source_type = o.source_type;
  icao_address = o.icao_address;
  metadata = o.metadata;
  timestamp = o.timestamp;
}

unfoldable pub to_observations : ℕ → List ObservationIn → List Observation
unfolding to_observation
to_observations session_id body = map (to_observation session_id) body

-- `observations[i : i + size] for i in range(0, len(observations), size)`. The fuel is the number of
-- observations; the size is not 0.
unfoldable pub chunks {ℓ} : {A : Type ℓ} → ℕ → ℕ → List A → List (List A)
chunks size zero xs = []
chunks size (suc n) xs =
    let rest = chunks size n (drop size xs) in if is_empty xs then [] else take size xs ∷ rest

-- The payloads of the tasks that are queued
unfoldable pub dispatch_observations {ℓ} : {J : Type ℓ} → List J → List (List J)
unfolding chunks
dispatch_observations observations = chunks 250 (length observations) observations

-- The two operations of the service are the same; the reply is 201 whatever the body is.
unfoldable pub set_air_traffic {ℓ} :
    {J : Type ℓ} → (Observation → J) → ℕ → List ObservationIn → List (List J)
unfolding to_observations dispatch_observations
set_air_traffic encode session_id body =
    dispatch_observations (map encode (to_observations session_id body))

module _ {ℓ} {J : Type ℓ} (parse : J → Option Observation) where
  -- An observation that is not parsed is skipped.
  abbrev pub parse_all : List J → List Observation
  parse_all [] = []
  parse_all (j ∷ js) = let rest = parse_all js in elim (parse j) [ none ↦ rest | some o ↦ o ∷ rest ]

  -- The table, and the observations that are handed to the Redis stream.
  unfoldable pub bulk_write_incoming_air_traffic_data :
      ℕ → List J → FeedDb × List Observation → FeedDb × List Observation
  unfolding bulk_write_flight_observations
  bulk_write_incoming_air_traffic_data now payload (db, stream) =
      let parsed = parse_all payload in
      if is_empty parsed
      then (db, stream)
      else (bulk_write_flight_observations now parsed db, stream ++ parsed)

  unfoldable pub write_incoming_air_traffic_data :
      ℕ → J → FeedDb × List Observation → FeedDb × List Observation
  unfolding write_flight_observation
  write_incoming_air_traffic_data now payload (db, stream) = elim (parse payload) [
    | none ↦ (db, stream)
    | some o ↦ (write_flight_observation now o db, stream ++ o ∷ [])
  ]

  -- The worker runs the queued tasks in order, all at `now`.
  unfoldable pub run_queue :
      ℕ → List (List J) → FeedDb × List Observation → FeedDb × List Observation
  run_queue now [] s = s
  run_queue now (p ∷ ps) s = run_queue now ps (bulk_write_incoming_air_traffic_data now p s)
