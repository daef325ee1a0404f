-- ===== src/Surveillance/TrackExamples.antt =====
-- The fusion of the observations of two aircraft, one of which has a track.
use flight_blender.Prelude.{ℕ, pos, ◌≡◌, refl, some, String, str_eq, List, [], ◌∷◌, ◌++◌, select}
use flight_blender.Json.{null}
use flight_blender.Feed.Tables.{Observation}
use flight_blender.Surveillance.Tracks.{ActiveTrack, generate_active_tracks}
use flight_blender.Surveillance.Fusion.{observations_of, generate_active_tracks-observations}

abbrev seen : String → ℕ → Observation
seen icao_address timestamp = record {
  lat_dd = pos 1;
  lon_dd = pos 2;
  altitude_mm = pos 100000;
  traffic_source = 1;
  source_type = 1;
  icao_address = icao_address;
  timestamp = timestamp;
  metadata = null;
  session_id = some 5;
}

abbrev store : List ActiveTrack
store =
    record {
      session_id = 5;
      unique_aircraft_identifier = "abc";
      last_updated_timestamp = 10;
      observations = seen "abc" 10 ∷ [];
    }
    ∷ []

abbrev fused : List Observation
fused = seen "abc" 11 ∷ seen "def" 11 ∷ seen "abc" 12 ∷ []

two_tracks :
    generate_active_tracks 20 5 fused store
    ≡ record {
      session_id = 5;
      unique_aircraft_identifier = "abc";
      last_updated_timestamp = 20;
      observations = seen "abc" 10 ∷ seen "abc" 11 ∷ seen "abc" 12 ∷ [];
    }
      ∷ record {
        session_id = 5;
        unique_aircraft_identifier = "def";
        last_updated_timestamp = 20;
        observations = seen "def" 11 ∷ [];
      }
      ∷ []
unfolding generate_active_tracks
two_tracks = refl

generate_active_tracks-observations_example :
    observations_of 5 "abc" (generate_active_tracks 20 5 fused store)
    ≡ observations_of 5 "abc" store ++ select (λ o. str_eq o.icao_address "abc") fused
generate_active_tracks-observations_example =
    generate_active_tracks-observations 20 5 "abc" fused store
