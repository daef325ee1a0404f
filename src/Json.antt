-- ===== src/Json.antt =====
-- Decoded JSON, as `json.loads` gives it and `json.dumps` takes it. A text column that holds JSON is
-- kept as the value that is read from it, `none` where the text is no JSON.
use flight_blender.Prelude.{
  ℕ, ℤ, pos, Bool, true, false, Option, none, some, String, List, [], ◌∷◌, any, ◌&&◌, ◌||◌, str_eq,
  is_some, if◌then◌else◌,
}
use flight_blender.Exceptions.{
  attribute_error, key_error, type_error, json_decode_error, Result, ok, raise, or_raise,
}

mutual
  pub data Json : Type 0 where
    null : Json
    bool : Bool → Json
    num : ℤ → Json
    str : String → Json
    arr : Items → Json
    obj : Fields → Json

  pub data Items : Type 0 where
    nil : Items
    cons : Json → Items → Items

  pub data Fields : Type 0 where
    end : Fields
    field : String → Json → Fields → Fields

abbrev pub JsonText : Type 0
JsonText = Option Json

abbrev pub loads : JsonText → Result Json
loads t = or_raise t json_decode_error

abbrev pub lookup : String → Fields → Option Json
lookup k end = none
lookup k (field j v fs) = if str_eq j k then some v else lookup k fs

abbrev pub to_list : Items → List Json
to_list nil = []
to_list (cons v vs) = v ∷ to_list vs

-- `d[k]`
abbrev pub item : String → Json → Result Json
item k (obj fs) = or_raise (lookup k fs) key_error
item k _ = raise type_error

-- `k in d.keys()`; any other value has no `keys`
abbrev pub has_key : String → Json → Result Bool
has_key k (obj fs) = ok (is_some (lookup k fs))
has_key k _ = raise attribute_error

abbrev is_prefix : String → String → Bool
is_prefix String.[] t = true
is_prefix (String.◌∷◌ c s) String.[] = false
is_prefix (String.◌∷◌ c s) (String.◌∷◌ d t) =
    str_eq (String.◌∷◌ c String.[]) (String.◌∷◌ d String.[]) && is_prefix s t

-- `s in t` on texts
abbrev is_infix : String → String → Bool
is_infix s String.[] = is_prefix s String.[]
is_infix s (String.◌∷◌ c t) = is_prefix s (String.◌∷◌ c t) || is_infix s t

-- `v == k` with a text
abbrev pub is_text : String → Json → Bool
is_text k (str s) = str_eq s k
is_text k _ = false

-- `k in v`
abbrev pub contains : String → Json → Result Bool
contains k (obj fs) = ok (is_some (lookup k fs))
contains k (arr vs) = ok (any (is_text k) (to_list vs))
contains k (str s) = ok (is_infix k s)
contains k _ = raise type_error

-- `d.get(k, default)`
abbrev pub get_or : String → Json → Json → Result Json
get_or k default (obj fs) = ok (elim (lookup k fs) [ none ↦ default | some v ↦ v ])
get_or k default _ = raise attribute_error

-- The characters of a text, each a text of its own.
abbrev pub characters : String → List Json
characters String.[] = []
characters (String.◌∷◌ c s) = str (String.◌∷◌ c String.[]) ∷ characters s

abbrev pub keys : Fields → List Json
keys end = []
keys (field k v fs) = str k ∷ keys fs

-- iteration over a value
abbrev pub elements : Json → Result (List Json)
elements (arr vs) = ok (to_list vs)
elements (str s) = ok (characters s)
elements (obj fs) = ok (keys fs)
elements _ = raise type_error

-- `bool(v)`
abbrev pub truthy : Json → Bool
truthy null = false
truthy (bool b) = b
truthy (num (pos n)) = elim n [ ℕ.zero ↦ false | ℕ.suc _ ↦ true ]
truthy (num _) = true
truthy (str String.[]) = false
truthy (str _) = true
truthy (arr nil) = false
truthy (arr _) = true
truthy (obj end) = false
truthy (obj _) = true

-- A value where a number is needed. One is 10⁷ units.
abbrev pub number : Json → Result ℤ
number (num n) = ok n
number (bool b) = ok (pos (if b then 10000000 else 0))
number _ = raise type_error
