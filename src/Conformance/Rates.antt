-- ===== src/Conformance/Rates.antt =====
-- What the date range and the summary of a request promise.
use flight_blender.Prelude.{
  ℕ, ◌+◌, ◌*◌, ◌≤◌, ◌≡◌, refl, Bool, Option, none, some, String, List, [], ◌∷◌, arith, ◌==◌, length,
}
use flight_blender.World.{ConformanceRow}
use flight_blender.Repositories.Tables.{count}
use flight_blender.Conformance.Summary.{range, parse_date_range, summarise}

-- A range that is accepted was given by two texts, neither empty, and its start is before its end.
pub parse_date_range-ordered :
    (read : String → Option ℕ) (start_date end_date : Option String) (s e : ℕ)
    → parse_date_range read start_date end_date ≡ range s e
    → (s + 1 ≤ e)
      × ((a : String) × (start_date ≡ some a) × (read a ≡ some s))
      × ((b : String) × (end_date ≡ some b) × (read b ≡ some e))
unfolding parse_date_range
parse_date_range-ordered read none b s e h = absurd (ground arith)
parse_date_range-ordered read (some a) none s e h = absurd (ground arith)
parse_date_range-ordered read (some a) (some b) s e h =
    (ground arith, (a, refl, ground arith), (b, refl, ground arith))

count_le_length : {A : Type 0} (p : A → Bool) (xs : List A) → count p xs ≤ length xs
count_le_length p [] = omega arith
count_le_length p (x ∷ xs) = ground (arith, count_le_length p xs)

-- The two parts of a summary add up to its total, and the rate, where there is one, is a fraction of
-- at most 100 with the total as its denominator, which is not 0.
pub summarise-total :
    (records : List ConformanceRow)
    → let s = summarise records in
      (s.conforming_records + s.non_conforming_records ≡ s.total_records)
      × (s.total_records ≡ length records)
      × ((n m : ℕ) → s.rate ≡ some (n, m) → (1 ≤ m) × (m ≡ s.total_records) × (n ≤ 100 * m))
unfolding summarise
summarise-total records =
    let le = count_le_length (λ (r : ConformanceRow). r.conformance_state == 1) records in
    (ground arith, refl, λ n m h. ground arith)
