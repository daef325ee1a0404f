-- ===== src/Exceptions.antt =====
-- Python calls that may raise: a result, and the `do` block over it.
use flight_blender.Prelude.{inr, inl, ◌⊎◌, ◌≡◌, refl, Option, none, some, List, [], ◌∷◌}

-- The exception classes that the modelled code raises or catches.
pub data Exc : Type 0 where
  key_error index_error type_error value_error attribute_error runtime_error : Exc
  json_decode_error connection_error parser_error integrity_error multiple_results_found : Exc
  unbound_local_error : Exc

-- What a call gives back: the value that it returns, or the exception that it raises.
pub data Result {ℓ} (A : Type ℓ) : Type ℓ where
  raise : Exc → Result A
  ok : A → Result A

-- The first exception ends a sequence of calls.
module _ {ℓ κ} {A : Type ℓ} {B : Type κ} where
  infixl 5 ◌>>=◌ ◌>>◌
  abbrev pub ◌>>=◌ : Result A → (A → Result B) → Result B
  called >>= continue = elim called [ raise e ↦ raise e | ok value ↦ continue value ]

  abbrev pub ◌>>◌ : Result A → Result B → Result B
  first >> second = first >>= λ _. second

abbrev pub or_raise {ℓ} : {A : Type ℓ} → Option A → Exc → Result A
or_raise none e = raise e
or_raise (some a) e = ok a

-- `[f(x) for x in xs]`, where `f` may raise: the first exception ends it.
abbrev pub traverse {ℓ κ} : {A : Type ℓ} {B : Type κ} → (A → Result B) → List A → Result (List B)
traverse f [] = ok []
traverse f (x ∷ xs) = let rest = traverse f xs in f x >>= λ y. rest >>= λ ys. ok (y ∷ ys)

-- A sequence that returns has returned at its first call.
pub >>=-eq-ok {ℓ κ} :
    {A : Type ℓ} {B : Type κ} (called : Result A) (continue : A → Result B) {last : B}
    → (called >>= continue) ≡ ok last
    → (value : A) × (called ≡ ok value) × (continue value ≡ ok last)
>>=-eq-ok (raise e) continue returned = cc
>>=-eq-ok (ok value) continue returned = (value, refl, returned)

pub Result-cases {ℓ} :
    {A : Type ℓ} (r : Result A) → ((a : A) × (r ≡ ok a)) ⊎ ((e : Exc) × (r ≡ raise e))
Result-cases (ok a) = inl (a, refl)
Result-cases (raise e) = inr (e, refl)
