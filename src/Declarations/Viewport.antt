-- ===== src/Declarations/Viewport.antt =====
-- `_check_view_port` (flight_blender/services/flight_declarations_svc.py): the four numbers of a view
-- are latitude, longitude, latitude, longitude, in either order of the corners.
use flight_blender.Prelude.{
  ℕ, ◌*◌, ℤ, pos, negsuc, ◌-◌, ◌≤ℤ◌, ltb_ℤ, leb_ℤ, ◌≡◌, Bool, true, false, ◌&&◌, List, [], ◌∷◌,
  arith, if◌then◌else◌,
}

-- A whole number of degrees in units of 10⁻⁷.
abbrev pub degrees : ℕ → ℤ
degrees n = pos (n * 10000000)

abbrev pub minus_degrees : ℕ → ℤ
minus_degrees n = negsuc (n * 10000000 - 1)

-- `sorted` of two numbers
abbrev pub sorted : ℤ → ℤ → ℤ × ℤ
sorted a b = if ltb_ℤ b a then (b, a) else (a, b)

abbrev in_bounds : ℤ × ℤ → ℤ × ℤ → Bool
in_bounds (lat_min, lat_max) (lng_min, lng_max) =
    leb_ℤ (minus_degrees 90) lat_min
    && ltb_ℤ lat_min (degrees 90)
    && (ltb_ℤ (minus_degrees 90) lat_max && leb_ℤ lat_max (degrees 90))
    && (leb_ℤ (minus_degrees 180) lng_min && ltb_ℤ lng_min (degrees 360))
    && (ltb_ℤ (minus_degrees 180) lng_max && leb_ℤ lng_max (degrees 360))

-- Any other number of coordinates is refused.
unfoldable pub check_view_port : List ℤ → Bool
check_view_port (a ∷ b ∷ c ∷ d ∷ []) = in_bounds (sorted a c) (sorted b d)
check_view_port _ = false

sorted_comm : (a b : ℤ) → sorted a b ≡ sorted b a
sorted_comm (pos a) (pos b) = ground arith
sorted_comm (pos a) (negsuc b) = ground arith
sorted_comm (negsuc a) (pos b) = ground arith
sorted_comm (negsuc a) (negsuc b) = ground arith

-- The answer does not depend on which corner comes first.
pub check_view_port-swap :
    (a b c d : ℤ) → check_view_port (a ∷ b ∷ c ∷ d ∷ []) ≡ check_view_port (c ∷ d ∷ a ∷ b ∷ [])
unfolding check_view_port
check_view_port-swap a b c d = rw (sorted_comm a c, sorted_comm b d)

-- Every coordinate of an accepted view lies in its range.
pub check_view_port-bounds :
    (a b c d : ℤ)
    → check_view_port (a ∷ b ∷ c ∷ d ∷ []) ≡ true
    → ((minus_degrees 90 ≤ℤ a) × (a ≤ℤ degrees 90))
      × ((minus_degrees 90 ≤ℤ c) × (c ≤ℤ degrees 90))
      × ((minus_degrees 180 ≤ℤ b) × (b ≤ℤ degrees 360))
      × ((minus_degrees 180 ≤ℤ d) × (d ≤ℤ degrees 360))
unfolding check_view_port
check_view_port-bounds a b c d h = ground arith
