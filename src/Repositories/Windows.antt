-- ===== src/Repositories/Windows.antt =====
-- The time windows of the two searches that deconfliction makes.
use flight_blender.Prelude.{ℕ, ◌≤◌, ◌≡◌, ap, sym, ◌≢◌, ◌↔◌, true, Option, none, some, arith}
use Prim.Native.Nat.{max}
use flight_blender.World.{Declaration, GeoFence}
use flight_blender.Repositories.Declarations.{is_active_in_window}
use flight_blender.Repositories.GeoFences.{is_in_time_window}

-- A declaration conflicts in time iff it is accepted, activated, nonconforming or contingent, some
-- moment lies in its window and in the requested one, and it is not the one to leave out.
pub is_active_in_window_iff :
    (start end : ℕ) (exclude : Option ℕ) (d : Declaration)
    → start ≤ end
    → d.start_datetime ≤ d.end_datetime
    → (is_active_in_window start end exclude d ≡ true) ↔ (
        ((1 ≤ d.state) × (d.state ≤ 4))
        × ((t : ℕ) × (start ≤ t) × (t ≤ end) × (d.start_datetime ≤ t) × (t ≤ d.end_datetime))
        × (exclude ≢ some d.id))
unfolding is_active_in_window
is_active_in_window_iff start end none d h k = (
  λ e. (
    ground arith,
    (max start d.start_datetime, ground arith, ground arith, ground arith, ground arith),
    λ q. cc,
  ),
  λ (s, (t, a, b, c, e), x). ground arith,
)
is_active_in_window_iff start end (some id) d h k = (
  λ e. (
    ground arith,
    (max start d.start_datetime, ground arith, ground arith, ground arith, ground arith),
    λ q. let same : id ≡ d.id = cc in ground arith,
  ),
  λ (s, (t, a, b, c, e), x). let other : d.id ≢ id = λ q. x (ap some (sym q)) in ground arith,
)

-- The search of geofences for deconfliction finds a fence iff it is in force during the whole of the
-- operation: a fence that begins or ends while the operation flies is not found.
pub is_in_time_window_iff :
    (start end : ℕ) (f : GeoFence)
    → start ≤ end
    → (is_in_time_window start end f ≡ true)
      ↔ ((t : ℕ) → start ≤ t → t ≤ end → (f.start_datetime ≤ t) × (t ≤ f.end_datetime))
unfolding is_in_time_window
is_in_time_window_iff start end f h =
    (λ e t p q. ground arith, λ all. ground (arith, all start, all end))
