-- ===== src/Feed/Examples.antt =====
-- The theorems on the feed at concrete observations.
use flight_blender.Samples.{operation}
use flight_blender.Prelude.{
  ℕ, ℤ, pos, ◌≡◌, refl, Bool, true, ◌&&◌, Option, none, some, String, List, [], ◌∷◌, ◌++◌, leb, map,
  find, all, is_some,
}
use flight_blender.Json.{Json, obj, field, end, null}
use flight_blender.Exceptions.{ok}
use flight_blender.World.{Declaration}
use flight_blender.Repositories.Tables.{count}
use flight_blender.Samples.{operation}
use flight_blender.Feed.Tables.{ObservationRow, FeedDb}
use flight_blender.Feed.Repository.{row_of}
use flight_blender.Feed.Ingest.{ObservationIn, to_observations, set_air_traffic, run_queue}
use flight_blender.Feed.Stored.{set_air_traffic-stored}
use flight_blender.Feed.Readings.{latest_observations, get_flight_observations}
use flight_blender.Feed.Latest.{of, IsLatest, latest_observations-IsLatest}
use flight_blender.Feed.Gaps.{cutoff, get_flight_observations-since}
use flight_blender.Feed.Telemetry.{
  refused, no_states, check_operation, read_flight, Parsed, parsed, TelemetryObservation,
  submit_flights,
}
use flight_blender.Feed.Dispatches.{
  prefixes, accepted, accepted_before, is_submitted, submit_flights-prefixes,
}

abbrev helicopter : ObservationIn
helicopter = record {
  lat_dd = pos 465000000;
  lon_dd = pos 75000000;
  altitude_mm = pos 500000;
  icao_address = "4b1617";
  traffic_source = 9;
  timestamp = 1700000000;
  source_type = 0;
  metadata = obj end;
}

abbrev glider : ObservationIn
glider = record helicopter { icao_address = "4b0002"; traffic_source = 10 }

abbrev empty : FeedDb
empty = record { observations = []; public_keys = [] }

abbrev body : List ObservationIn
body = helicopter ∷ glider ∷ []

-- The JSON value of an observation stands for itself.
set_air_traffic-stored_example : run_queue some 50 (set_air_traffic (λ o. o) 7 body) (empty, []) ≡ (
  record empty { observations = map (row_of 50) (to_observations 7 body) },
  to_observations 7 body,
)
set_air_traffic-stored_example = set_air_traffic-stored some (λ o. o) (λ o. refl) 50 7 body empty []

abbrev row : String → ℕ → ObservationRow
row icao t = record {
  session_id = 7;
  latitude_dd = pos 465000000;
  longitude_dd = pos 75000000;
  altitude_mm = pos 500000;
  traffic_source = 9;
  source_type = 0;
  icao_address = icao;
  raw_metadata = obj end;
  sensor_timestamp = none;
  created_at = t;
}

abbrev rows : List ObservationRow
rows = row "a" 10 ∷ row "b" 20 ∷ row "a" 30 ∷ []

latest_observations-IsLatest_example :
    IsLatest "a" rows (find (of "a") (latest_observations [] rows))
latest_observations-IsLatest_example = latest_observations-IsLatest "a" rows

keeps_later : latest_observations [] rows ≡ row "a" 30 ∷ row "b" 20 ∷ []
unfolding latest_observations
keeps_later = refl

abbrev everywhere : List ℤ → ℤ → ℤ → Bool
everywhere view lat lng = true

abbrev stored : FeedDb
stored = record empty { observations = rows }

get_flight_observations-since_example :
    let (rows1, keys1) = get_flight_observations everywhere none 15 7 [] empty in
    let (rows2, keys2) = get_flight_observations everywhere none 40 7 keys1 stored in
    count (of "a") rows2 ≡ count (λ r. leb (cutoff 15 40) r.created_at && of "a" r) rows
get_flight_observations-since_example =
    get_flight_observations-since everywhere 15 40 7 [] empty stored (of "a")

-- A flight with its states, and one without.
abbrev flight : Json
flight = obj (field "flight_details" null (field "current_states" null end))

abbrev flights : List Json
flights = flight ∷ flight ∷ obj end ∷ []

-- dacite that takes any value, as states and as details of operation 7
abbrev any_states : Json → Parsed Json
any_states j = parsed j

abbrev of_seven : Json → Parsed (Option ℕ)
of_seven j = parsed (some 7)

abbrev seven : List Declaration
seven = operation 2 ∷ []

submit_flights-prefixes_example :
    let (reply, sent) = submit_flights any_states of_seven 150 seven (2 ∷ []) [] flights [] in
    (sent ≡ [] ++ prefixes [] (accepted_before any_states of_seven 150 seven (2 ∷ []) flights))
    × (is_submitted reply
        ≡ all (λ f. is_some (accepted any_states of_seven 150 seven (2 ∷ []) f)) flights)
submit_flights-prefixes_example =
    submit_flights-prefixes any_states of_seven 150 seven (2 ∷ []) [] flights []

abbrev reading : TelemetryObservation Json
reading = record { current_states = null; operation_id = some 7 }

-- The first flight is dispatched twice, and the request is refused.
dispatched_again :
    submit_flights any_states of_seven 150 seven (2 ∷ []) [] flights []
    ≡ (ok (refused no_states), (reading ∷ []) ∷ (reading ∷ reading ∷ []) ∷ [])
unfolding submit_flights read_flight check_operation
dispatched_again = refl
