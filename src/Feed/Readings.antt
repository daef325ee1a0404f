-- ===== src/Feed/Readings.antt =====
-- The readings of the feed: `get_air_traffic` of `FlightFeedOperations` and the methods of
-- `ObservationReadOperations`. `contains` is Shapely's test of a point in the box of a view.
use flight_blender.Prelude.{
  ℕ, ◌+◌, ◌-◌, ℤ, Bool, not, ◌&&◌, Option, none, some, String, List, [], ◌∷◌, ◌==◌, ltb,
  if◌then◌else◌, select, find, str_eq,
}
use flight_blender.Repositories.Tables.{delete_where}
use flight_blender.Declarations.Viewport.{check_view_port}
use flight_blender.Feed.Tables.{ObservationRow, FeedDb}
use flight_blender.Feed.Repository.{
  get_recent_flight_observations, get_closest_flight_observation_for_now,
  get_flight_observation_dicts, get_temporal_flight_observations_by_session_dicts,
  get_latest_flight_observation_by_session,
}

-- The key `last_reading_for_<id>` in Redis, with the time of the reading and when the key expires.
pub record ReadingKey : Type 0 where
  pub session_id : ℕ
  pub last_reading_time : ℕ
  pub expires_at : ℕ

abbrev pub is_live : ℕ → ℕ → ReadingKey → Bool
is_live now session_id k = k.session_id == session_id && ltb now k.expires_at

-- The last reading, or 20 seconds ago where there is none. The first 20 seconds of 1970 are left out.
unfoldable pub after_datetime : ℕ → ℕ → List ReadingKey → ℕ
after_datetime now session_id keys = elim (find (is_live now session_id) keys) [
  | none ↦ now - 20000000
  | some k ↦ k.last_reading_time
]

-- `redis.set` and `redis.expire` of five minutes
unfoldable pub remember : ℕ → ℕ → List ReadingKey → List ReadingKey
remember now session_id keys =
    record { session_id = session_id; last_reading_time = now; expires_at = now + 300000000 }
    ∷ delete_where (λ k. k.session_id == session_id) keys

-- The text of a view: absent or empty, no list of numbers, or the numbers.
pub data View : Type 0 where
  absent malformed : View
  coordinates : List ℤ → View

pub data TrafficReply : Type 0 where
  bad_view : String → TrafficReply
  traffic : List ObservationRow → TrafficReply

-- The dictionary from an address to its latest observation: a key keeps its place, and its observation
-- is replaced by a later one.
unfoldable pub put_latest : ObservationRow → List ObservationRow → List ObservationRow
put_latest o [] = o ∷ []
put_latest o (k ∷ ks) =
    let rest = put_latest o ks in
    if str_eq k.icao_address o.icao_address
    then if ltb k.created_at o.created_at then o ∷ ks else k ∷ ks
    else k ∷ rest

unfoldable pub latest_observations : List ObservationRow → List ObservationRow → List ObservationRow
unfolding put_latest
latest_observations kept [] = kept
latest_observations kept (o ∷ os) = latest_observations (put_latest o kept) os

module _ (contains : List ℤ → ℤ → ℤ → Bool) where
  abbrev pub in_view : List ℤ → List ObservationRow → List ObservationRow
  in_view view rows = select (λ r. contains view r.latitude_dd r.longitude_dd) rows

  unfoldable pub get_air_traffic :
      ℕ → ℕ → View → List ReadingKey → FeedDb → TrafficReply × List ReadingKey
  unfolding after_datetime remember latest_observations
  get_air_traffic now session_id absent keys db =
      (bad_view "A view bbox is necessary with four values: minx, miny, maxx and maxy", keys)
  get_air_traffic now session_id malformed keys db =
      (bad_view "A view bbox is necessary with four values: minx, miny, maxx and maxy", keys)
  get_air_traffic now session_id (coordinates view) keys db =
      if not (check_view_port view)
      then (bad_view "A incorrect view port bbox was provided", keys)
      else (
        traffic (
            latest_observations [] (
              in_view view
                (get_recent_flight_observations (after_datetime now session_id keys) db))),
        remember now session_id keys,
      )

  -- `if self.view_port_box`: a reader may have no box.
  abbrev in_box : Option (List ℤ) → List ObservationRow → List ObservationRow
  in_box none rows = rows
  in_box (some view) rows = in_view view rows

  unfoldable pub get_flight_observations :
      Option (List ℤ) → ℕ → ℕ → List ReadingKey → FeedDb → List ObservationRow × List ReadingKey
  unfolding after_datetime remember
  get_flight_observations box now session_id keys db = (
    in_box box (get_recent_flight_observations (after_datetime now session_id keys) db),
    remember now session_id keys,
  )

  unfoldable pub get_closest_observation_for_now :
      Option (List ℤ) → ℕ → FeedDb → List ObservationRow
  get_closest_observation_for_now box now db =
      in_box box (get_closest_flight_observation_for_now now db)

  unfoldable pub get_all_flight_observations : Option (List ℤ) → FeedDb → List ObservationRow
  get_all_flight_observations box db = in_box box (get_flight_observation_dicts db)

  unfoldable pub get_temporal_flight_observations_by_session :
      Option (List ℤ) → ℕ → ℕ → List ReadingKey → FeedDb → List ObservationRow × List ReadingKey
  unfolding after_datetime remember
  get_temporal_flight_observations_by_session box now session_id keys db = (
    in_box box (
        get_temporal_flight_observations_by_session_dicts session_id
          (after_datetime now session_id keys) db),
    remember now session_id keys,
  )

unfoldable pub get_latest_flight_observation_by_flight_declaration_id :
    ℕ → FeedDb → Option ObservationRow
get_latest_flight_observation_by_flight_declaration_id flight_declaration_id db =
    get_latest_flight_observation_by_session flight_declaration_id db
