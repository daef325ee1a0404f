-- ===== src/Scd/Registration.antt =====
-- `OperatorRegistrationNumberValidator` and `UAVSerialNumberValidator` (services/scd_svc.py). A text is
-- the list of its code points, which are taken to be ASCII.
use flight_blender.Prelude.{
  ℕ, ◌+◌, ◌-◌, ◌*◌, ◌/◌, ◌%◌, Bool, true, false, not, ◌&&◌, ◌||◌, Option, none, some, List, [], ◌∷◌,
  ◌++◌, ◌==◌, leb, ltb, if◌then◌else◌, all, elem, is_empty, length, take, drop,
}
use flight_blender.Exceptions.{key_error, value_error, Result, ok, raise, traverse, ◌>>=◌}

abbrev pub Text : Type 0
Text = List ℕ

abbrev pub is_digit : ℕ → Bool
is_digit c = leb 48 c && leb c 57

abbrev pub is_lower : ℕ → Bool
is_lower c = leb 97 c && leb c 122

abbrev pub is_upper : ℕ → Bool
is_upper c = leb 65 c && leb c 90

-- `str.isalnum`, which is false of the empty text
abbrev pub isalnum : Text → Bool
isalnum t = not (is_empty t) && all (λ c. is_digit c || is_lower c || is_upper c) t

-- `registration_number_code_points`: the digits and the small letters, by position and back.
unfoldable pub code_point : ℕ → ℕ
code_point v = if ltb v 10 then 48 + v else 87 + v

unfoldable pub value_of : ℕ → Result ℕ
value_of c = if is_digit c then ok (c - 48) else if is_lower c then ok (c - 87) else raise key_error

unfoldable pub partial_sum : ℕ → ℕ → ℕ
partial_sum number mult_factor = number * mult_factor / 36 + number * mult_factor % 36

-- The sum over the characters, with the factors 2 and 1 in turn.
unfoldable pub weighted : Bool → List ℕ → ℕ
unfolding partial_sum
weighted twice [] = 0
weighted twice (v ∷ vs) = partial_sum v (if twice then 2 else 1) + weighted (not twice) vs

-- `-final_sum % 36`
unfoldable pub control_number : List ℕ → ℕ
unfolding weighted
control_number vs = (36 - weighted true vs % 36) % 36

unfoldable pub gen_checksum : Text → Result ℕ
unfolding value_of control_number code_point
gen_checksum raw_id =
    if not (isalnum raw_id)
    then raise value_error
    else if not (length raw_id == 15)
    then raise value_error
    else traverse value_of raw_id >>= λ vs. ok (code_point (control_number vs))

-- `text.split("-")`, reversed pieces put right
abbrev pub split_first : Text → Option (Text × Text)
split_first [] = none
split_first (c ∷ cs) =
    let rest = split_first cs in
    if c == 45 then some ([], cs) else elim rest [ none ↦ none | some (a, b) ↦ some (c ∷ a, b) ]

-- The two parts of the text; any other number of parts is a `ValueError`.
unfoldable pub two_parts : Text → Option (Text × Text)
two_parts t = elim (split_first t) [
  | none ↦ none
  | some (a, b) ↦ elim (split_first b) [ none ↦ some (a, b) | some _ ↦ none ]
]

-- `except ValueError: return False`; any other exception passes.
abbrev pub or_false : Result Bool → Result Bool
or_false (ok b) = ok b
or_false (raise value_error) = ok false
or_false (raise e) = raise e

-- The checksum is the fifth character from the end: the last of the first part, which has sixteen.
unfoldable pub check_parts : Text → Text → Result Bool
unfolding gen_checksum
check_parts oprn secure_characters =
    if not (length oprn == 16)
    then ok false
    else if not (length secure_characters == 3)
    then ok false
    else let base_id = take 12 (drop 3 oprn) in
      if not (isalnum base_id)
      then ok false
      else or_false (
          gen_checksum (base_id ++ secure_characters) >>= λ computed_checksum.
          ok (elem computed_checksum (drop 15 oprn)))

unfoldable pub is_valid_registration : Text → Result Bool
unfolding two_parts check_parts
is_valid_registration operator_registration_number = elim (two_parts operator_registration_number) [
  | none ↦ ok false
  | some (oprn, secure_characters) ↦ check_parts oprn secure_characters
]

-- The length of a serial number by its fifth character: 1 to 9 and A to F.
abbrev length_code : ℕ → Option ℕ
length_code c =
    if leb 49 c && leb c 57
    then some (c - 48)
    else if leb 65 c && leb c 70
    then some (c - 55)
    else none

-- The letters O and I
abbrev code_contains_o_or_i : Text → Bool
code_contains_o_or_i code = elem 79 code || elem 73 code

unfoldable pub is_valid_serial_number : Text → Bool
is_valid_serial_number serial_number =
    if is_empty (take 4 serial_number)
    then false
    else if code_contains_o_or_i (take 4 serial_number)
    then false
    else elim (take 1 (drop 4 serial_number)) [
      | [] ↦ false
      | c ∷ _ ↦ elim (length_code c) [ none ↦ false | some n ↦ length (drop 5 serial_number) == n ]
    ]
