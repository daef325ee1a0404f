-- ===== src/Conformance/Checks.antt =====
-- `StatusCode` and `ConformanceChecksList` (flight_blender/services/conformance_svc.py).
use flight_blender.Prelude.{ℕ, Option, none, some, String, List, [], ◌∷◌, ◌==◌, elem, if◌then◌else◌}
use flight_blender.Exceptions.{value_error, Result, ok, raise}

abbrev pub options : List (ℕ × String)
options =
    (2, "Flight Auth not granted")
    ∷ (3, "Telemetry Auth mismatch")
    ∷ (4, "Operation state invalid")
    ∷ (5, "Operation not activated")
    ∷ (6, "Telemetry time incorrect")
    ∷ (7, "Flight out of bounds")
    ∷ (8, "Flight altitude out of bounds")
    ∷ (9, "Geofence breached")
    ∷ (10, "Telemetry not received")
    ∷ (11, "Telemetry not received within last 15 secs")
    ∷ (12, "State not in accepted, non-conforming, activated")
    ∷ (13, "No Flight Authorization")
    ∷ []

abbrev keys : List (ℕ × String) → List ℕ
keys [] = []
keys ((k, v) ∷ m) = k ∷ keys m

-- The class attributes in the order of `dir`.
abbrev attributes : List (String × ℕ)
attributes =
    ("C10", 12)
    ∷ ("C11", 13)
    ∷ ("C2", 2)
    ∷ ("C3", 3)
    ∷ ("C4", 4)
    ∷ ("C5", 5)
    ∷ ("C6", 6)
    ∷ ("C7a", 7)
    ∷ ("C7b", 8)
    ∷ ("C8", 9)
    ∷ ("C9a", 10)
    ∷ ("C9b", 11)
    ∷ []

-- `names`: the attributes whose value is a key of `options`.
abbrev names_of : List (String × ℕ) → List (String × ℕ)
names_of [] = []
names_of ((d, v) ∷ m) =
    let rest = names_of m in if elem v (keys options) then (d, v) ∷ rest else rest

abbrev names : List (String × ℕ)
names = names_of attributes

abbrev find_name : ℕ → List (String × ℕ) → Result String
find_name key [] = raise value_error
find_name key ((k, v) ∷ m) = if v == key then ok k else find_name key m

unfoldable pub state_code : ℕ → Result String
state_code key = find_name key names

-- `label`: `none` is the key itself, which `options.get(value, value)` gives back.
abbrev find_label : ℕ → List (ℕ × String) → Option String
find_label value [] = none
find_label value ((k, v) ∷ m) = if k == value then some v else find_label value m

unfoldable pub label : ℕ → Option String
label value = find_label value options
