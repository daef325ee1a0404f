-- ===== src/Surveillance/Tracks.antt =====
-- The default fusion of tracks: `TrafficDataFuser` (flight_blender/services/surveillance_svc.py) over
-- the active tracks that `RedisStreamOperations` (flight_blender/clients/redis_client.py) keeps. A
-- key of the store is a session with the identifier of an aircraft.
use flight_blender.Prelude.{
  ℕ, Bool, ◌&&◌, Option, none, some, String, str_eq, List, [], ◌∷◌, ◌++◌, ◌==◌, find, select,
  is_some, if◌then◌else◌,
}
use flight_blender.Repositories.Upserts.{upsert}
use flight_blender.Feed.Tables.{Observation}

pub record ActiveTrack : Type 0 where
  pub session_id : ℕ
  pub unique_aircraft_identifier : String
  pub last_updated_timestamp : ℕ
  pub observations : List Observation

abbrev pub has_key : ℕ → String → ActiveTrack → Bool
has_key session_id identifier t =
    t.session_id == session_id && str_eq t.unique_aircraft_identifier identifier

unfoldable pub get_active_track : ℕ → String → List ActiveTrack → Option ActiveTrack
get_active_track session_id identifier store = find (has_key session_id identifier) store

unfoldable pub check_active_track_exists : ℕ → String → List ActiveTrack → Bool
unfolding get_active_track
check_active_track_exists session_id identifier store =
    is_some (get_active_track session_id identifier store)

-- `hmset` of all fields: the same for a new track and for one that is there
unfoldable pub update_active_track : ActiveTrack → List ActiveTrack → List ActiveTrack
update_active_track track store =
    upsert (has_key track.session_id track.unique_aircraft_identifier) (λ t. track) track store

unfoldable pub add_active_track_to_session : ActiveTrack → List ActiveTrack → List ActiveTrack
unfolding update_active_track
add_active_track_to_session = update_active_track

unfoldable pub get_all_active_tracks_in_session : ℕ → List ActiveTrack → List ActiveTrack
get_all_active_tracks_in_session session_id store = select (λ t. t.session_id == session_id) store

-- `active_tracks_in_session[icao_address].append(observation)`, where the dict keeps the order of its
-- first insertions
unfoldable pub append_observation :
    Observation → List (String × List Observation) → List (String × List Observation)
append_observation o [] = (o.icao_address, o ∷ []) ∷ []
append_observation o ((k, os) ∷ groups) =
    let rest = append_observation o groups in
    if str_eq k o.icao_address then (k, os ++ o ∷ []) ∷ groups else (k, os) ∷ rest

unfoldable pub group_from :
    List Observation → List (String × List Observation) → List (String × List Observation)
unfolding append_observation
group_from [] groups = groups
group_from (o ∷ observations) groups = group_from observations (append_observation o groups)

-- The track that is there with the new observations, or a new track
abbrev pub continued : ℕ → ℕ → String → List Observation → Option ActiveTrack → ActiveTrack
continued now session_id icao_address observations (some existing) = record existing {
  observations = existing.observations ++ observations;
  last_updated_timestamp = now;
}
continued now session_id icao_address observations none = record {
  session_id = session_id;
  unique_aircraft_identifier = icao_address;
  last_updated_timestamp = now;
  observations = observations;
}

unfoldable pub store_group : ℕ → ℕ → String × List Observation → List ActiveTrack → List ActiveTrack
unfolding get_active_track update_active_track
store_group now session_id (icao_address, observations) store =
    update_active_track
      (continued now session_id icao_address observations
        (get_active_track session_id icao_address store))
      store

unfoldable pub store_groups :
    ℕ → ℕ → List (String × List Observation) → List ActiveTrack → List ActiveTrack
unfolding store_group
store_groups now session_id [] store = store
store_groups now session_id (g ∷ groups) store =
    store_groups now session_id groups (store_group now session_id g store)

unfoldable pub generate_active_tracks :
    ℕ → ℕ → List Observation → List ActiveTrack → List ActiveTrack
unfolding group_from store_groups
generate_active_tracks now session_id fused_observations store =
    store_groups now session_id (group_from fused_observations []) store
