-- ===== src/Surveillance/Probability.antt =====
-- The rounded probabilities of the metrics, against the exact ones.
use flight_blender.Prelude.{
  refl, ◌∙◌, ◌∙◌, select, leb, ◌&&◌, true, ◌==◌, lt→ltb, suc, Bool, ℕ, zero, suc, ◌+◌, ◌*◌, ◌≤◌,
  ◌<◌, ◌≡◌, List, [], ◌∷◌, arith, length, round_div,
}
use native.Mathlib.Decide.{dec_le}
use native.Mathlib.Nat.{mul-le-mul_right}
use flight_blender.Repositories.Tables.{
  count-order_by, count-select, count-order_by, order_by, count,
}
use flight_blender.Surveillance.Tables.{HeartbeatEvent, SurveillanceDb}
use flight_blender.Surveillance.Repository.{get_heartbeat_events_for_session}
use flight_blender.Surveillance.Metrics.{probability_of, calculate_heartbeat_delivery_probability}

-- A rounded quotient is off by half at most.
round_div_nearest :
    (a b : ℕ)
    → 0 < b
    → (2 * (round_div a b * b) ≤ 2 * a + b) × (2 * a ≤ 2 * (round_div a b * b) + b)
round_div_nearest a b h = grind arith

below_of_nearest : (q a b m : ℕ) → 0 < b → 2 * (q * b) ≤ 2 * a + b → a ≤ m * b → q ≤ m
below_of_nearest q a b m h near le = elim (dec_le q m) [
  | yes below ↦ below
  | no above ↦
      let more : (m + 1) * b ≤ q * b = mul-le-mul_right b (omega arith) in
      let one : (m + 1) * b ≡ m * b + b = grind arith in absurd (omega arith)
]

count-le-length {ℓ} : {A : Type ℓ} (p : A → Bool) (xs : List A) → count p xs ≤ length xs
count-le-length p [] = omega arith
count-le-length p (x ∷ xs) = ground (arith, count-le-length p xs)

-- A share of a total as a probability: at most one, and off by half a millionth at most.
probability_of-bounds :
    (part total : ℕ)
    → part ≤ total
    → (probability_of part total ≤ 1000000)
      × (2 * (probability_of part total * total) ≤ 2 * (part * 1000000) + total)
      × (2 * (part * 1000000) ≤ 2 * (probability_of part total * total) + total)
unfolding probability_of
probability_of-bounds part zero h = omega arith
probability_of-bounds part (suc n) h =
    let (low, high) = round_div_nearest (part * 1000000) (suc n) (omega arith) in
    rw (lt→ltb 0 (suc n) (omega arith), probability_of)
      (
        below_of_nearest (round_div (part * 1000000) (suc n)) (part * 1000000) (suc n) 1000000
            (omega arith) low (omega arith),
        low,
        high,
      )

length-count-true {ℓ} : {A : Type ℓ} (xs : List A) → length xs ≡ count (λ x. true) xs
length-count-true [] = refl
length-count-true (x ∷ xs) = omega (arith, length-count-true xs)

count-and_true {ℓ} :
    {A : Type ℓ} (p : A → Bool) (xs : List A) → count (λ x. p x && true) xs ≡ count p xs
count-and_true p [] = refl
count-and_true p (x ∷ xs) = ground (arith, count-and_true p xs)

-- The metric of a session and a window counts the heartbeats of the table that are the session's and
-- were sent in the window, ends included, and those of them that went out on time. The probability
-- is at most one, and off the exact share by half a millionth at most, counted in whole millionths.
pub calculate_heartbeat_delivery_probability-bounds :
    (session_id start_time end_time : ℕ) (db : SurveillanceDb)
    → let m = calculate_heartbeat_delivery_probability session_id start_time end_time db in
      (m.total_expected
        ≡ count
            (λ (e : HeartbeatEvent).
              e.session_id == session_id
              && (leb start_time e.dispatched_at && leb e.dispatched_at end_time))
            db.heartbeats)
      × (m.delivered_on_time
          ≡ count
              (λ (e : HeartbeatEvent).
                (e.session_id == session_id
                  && (leb start_time e.dispatched_at && leb e.dispatched_at end_time))
                && e.delivered_on_time)
              db.heartbeats)
      × (m.probability ≤ 1000000)
      × (2 * (m.probability * m.total_expected)
          ≤ 2 * (m.delivered_on_time * 1000000) + m.total_expected)
      × (2 * (m.delivered_on_time * 1000000)
          ≤ 2 * (m.probability * m.total_expected) + m.total_expected)
unfolding calculate_heartbeat_delivery_probability probability_of get_heartbeat_events_for_session
calculate_heartbeat_delivery_probability-bounds session_id start_time end_time db =
    let fits : HeartbeatEvent → Bool = λ (e : HeartbeatEvent).
      e.session_id == session_id
      && (leb start_time e.dispatched_at && leb e.dispatched_at end_time) in
    let sent : HeartbeatEvent → ℕ = λ e. e.dispatched_at in
    let events = order_by sent (select fits db.heartbeats) in
    let on_time : HeartbeatEvent → Bool = λ e. e.delivered_on_time in
    let (one, low, high) = probability_of-bounds _ _ (count-le-length on_time events) in
    (
      length-count-true events
          ∙ (count-order_by (λ e. true) sent (select fits db.heartbeats)
              ∙ (count-select (λ e. true) fits db.heartbeats ∙ count-and_true fits db.heartbeats)),
      count-order_by on_time sent (select fits db.heartbeats)
          ∙ count-select on_time fits db.heartbeats,
      one,
      low,
      high,
    )
