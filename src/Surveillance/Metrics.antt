-- ===== src/Surveillance/Metrics.antt =====
-- The metrics of sessions in `SurveillanceOperations`: rates of heartbeats in hundredths of a hertz,
-- probabilities in millionths. A float is the exact value, rounded where the source rounds.
use flight_blender.Prelude.{
  ℕ, ◌*◌, ◌-◌, Option, none, some, List, [], ◌∷◌, ltb, leb, if◌then◌else◌, length, round_div,
}
use flight_blender.Repositories.Tables.{count}
use flight_blender.Surveillance.Tables.{HeartbeatEvent, SurveillanceDb}
use flight_blender.Surveillance.Repository.{get_heartbeat_events_for_session}

pub record HeartbeatRateMetric : Type 0 where
  pub measured_rate_hz : ℕ
  pub target_rate_hz : ℕ
  pub session_id : ℕ
  pub window_start : ℕ
  pub window_end : ℕ
  pub total_heartbeats_in_window : ℕ

pub record HeartbeatDeliveryProbability : Type 0 where
  pub probability : ℕ
  pub delivered_on_time : ℕ
  pub total_expected : ℕ
  pub session_id : ℕ
  pub window_start : ℕ
  pub window_end : ℕ

pub record TrackUpdateProbability : Type 0 where
  pub probability : ℕ
  pub ticks_with_active_tracks : ℕ
  pub total_ticks : ℕ
  pub session_id : ℕ
  pub window_start : ℕ
  pub window_end : ℕ

-- The time from the first event to the last. The query gives the events in order of time, so that no
-- span is negative.
abbrev pub last_of : HeartbeatEvent → List HeartbeatEvent → HeartbeatEvent
last_of e [] = e
last_of e (f ∷ fs) = last_of f fs

unfoldable pub span_of : List HeartbeatEvent → ℕ
span_of [] = 0
span_of (e ∷ es) = (last_of e es).dispatched_at - e.dispatched_at

-- `round((total - 1) / span_seconds, 2)`
unfoldable pub rate_of : List HeartbeatEvent → ℕ
unfolding span_of
rate_of events =
    let total = length events in
    if leb 2 total
    then if ltb 0 (span_of events)
      then round_div ((total - 1) * 100 * 1000000) (span_of events)
      else 0
    else 0

unfoldable pub calculate_heartbeat_rate : ℕ → ℕ → ℕ → SurveillanceDb → HeartbeatRateMetric
unfolding get_heartbeat_events_for_session rate_of
calculate_heartbeat_rate session_id start_time end_time db =
    let events = get_heartbeat_events_for_session session_id start_time end_time db in
    record {
      measured_rate_hz = rate_of events;
      target_rate_hz = 100;
      session_id = session_id;
      window_start = start_time;
      window_end = end_time;
      total_heartbeats_in_window = length events;
    }

-- `round(part / total, 6) if total > 0 else 0.0`
unfoldable pub probability_of : ℕ → ℕ → ℕ
probability_of part total = if ltb 0 total then round_div (part * 1000000) total else 0

unfoldable pub calculate_heartbeat_delivery_probability :
    ℕ → ℕ → ℕ → SurveillanceDb → HeartbeatDeliveryProbability
unfolding get_heartbeat_events_for_session probability_of
calculate_heartbeat_delivery_probability session_id start_time end_time db =
    let events = get_heartbeat_events_for_session session_id start_time end_time db in
    let on_time = count (λ (e : HeartbeatEvent). e.delivered_on_time) events in
    record {
      probability = probability_of on_time (length events);
      delivered_on_time = on_time;
      total_expected = length events;
      session_id = session_id;
      window_start = start_time;
      window_end = end_time;
    }

-- `observed` is the number of observations of the feed in the window, where there is a feed.
unfoldable pub calculate_track_update_probability :
    Option (ℕ → ℕ → ℕ) → ℕ → ℕ → ℕ → TrackUpdateProbability
unfolding probability_of
calculate_track_update_probability observed session_id start_time end_time =
    let total : ℕ = elim observed [ none ↦ 0 | some f ↦ f start_time end_time ] in
    record {
      probability = probability_of total total;
      ticks_with_active_tracks = total;
      total_ticks = total;
      session_id = session_id;
      window_start = start_time;
      window_end = end_time;
    }
