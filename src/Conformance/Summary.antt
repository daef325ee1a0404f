-- ===== src/Conformance/Summary.antt =====
-- `ConformanceOperations` (flight_blender/services/conformance_svc.py): the date range of a request
-- and the summary of the records in it.
use flight_blender.Prelude.{
  ℕ, ◌*◌, ◌-◌, Bool, true, ◌||◌, Option, none, some, String, List, ◌==◌, leb, length, str_eq,
  if◌then◌else◌,
}
use flight_blender.World.{ConformanceRow, Action, pure, ◌>>=◌}
use flight_blender.Repositories.Tables.{count}
use flight_blender.Repositories.Conformance.{get_conformance_records_for_duration}

pub data DateRange : Type 0 where
  range : ℕ → ℕ → DateRange
  refused : String → DateRange

-- An absent or an empty text is falsy.
abbrev missing : Option String → Bool
missing none = true
missing (some s) = str_eq s ""

abbrev text_or_empty : Option String → String
text_or_empty none = ""
text_or_empty (some s) = s

abbrev checked_range : Option ℕ → Option ℕ → DateRange
checked_range none e = refused "Invalid date format. Use ISO 8601 format."
checked_range (some s) none = refused "Invalid date format. Use ISO 8601 format."
checked_range (some s) (some e) =
    if leb e s then refused "start_date must be before end_date" else range s e

-- `parse_date_range`; `read` is `arrow.get`, with `none` for a `ParserError`.
unfoldable pub parse_date_range : (String → Option ℕ) → Option String → Option String → DateRange
parse_date_range read start_date end_date =
    if missing start_date || missing end_date
    then refused "start_date and end_date are required"
    else checked_range (read (text_or_empty start_date)) (read (text_or_empty end_date))

-- The rate is a float in the source: here the two factors of `conforming / total * 100`, or `none`
-- where there is no record and the rate is 0.
pub record ConformanceSummary : Type 0 where
  pub total_records : ℕ
  pub conforming_records : ℕ
  pub non_conforming_records : ℕ
  pub rate : Option (ℕ × ℕ)

unfoldable pub summarise : List ConformanceRow → ConformanceSummary
summarise records =
    let total = length records in
    let conforming = count (λ (r : ConformanceRow). r.conformance_state == 1) records in
    record {
      total_records = total;
      conforming_records = conforming;
      non_conforming_records = total - conforming;
      rate = if total == 0 then none else some (100 * conforming, total);
    }

unfoldable pub get_summary : ℕ → ℕ → Action ConformanceSummary
unfolding get_conformance_records_for_duration summarise
get_summary start_time end_time =
    get_conformance_records_for_duration start_time end_time >>= λ records. pure (summarise records)
