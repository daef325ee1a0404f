-- ===== src/Scd/Shape.antt =====
-- The form of a registration number that passes.
use flight_blender.Prelude.{
  not, ==_iff, if◌then◌else◌, sym, all, ℕ, ◌≡◌, refl, ap, ◌∙◌, ◌↔◌, Bool, true, false, ◌==◌, some,
  List, [], ◌∷◌, ◌++◌, arith, elem, length, Option-cases, inl, inr, take, drop, take-drop,
  length-take, length-drop, take-append, drop-append, length-append,
}
use flight_blender.Exceptions.{raise, ◌>>=◌, Result, ok, >>=-eq-ok}
use flight_blender.Scd.Checksum.{control_number-range, gen_checksum-value}
use flight_blender.Scd.Registration.{
  or_false, control_number, Text, two_parts, isalnum, gen_checksum, check_parts,
  is_valid_registration,
}
use flight_blender.Scd.Dash.{
  two_parts_iff, elem-++, alphanumerics-dash_free, isalnum-all, isalnum_long, not_dash,
  gen_checksum-alphanumeric, singleton, drop-twice,
}

-- The form of a number that passes: three characters, twelve of the identifier, the check
-- character that they have, a dash and three more characters.
pub record IsRegistration (number : Text) : Type 0 where
  pub country : Text
  pub base : Text
  pub check : ℕ
  pub secure : Text
  pub country_length : length country ≡ 3
  pub base_length : length base ≡ 12
  pub secure_length : length secure ≡ 3
  pub dash_free : elem 45 country ≡ false
  pub checked : gen_checksum (base ++ secure) ≡ ok check
  pub written : number ≡ (country ++ (base ++ check ∷ [])) ++ 45 ∷ secure

ok-injective : {a b : Bool} → ok a ≡ ok b → a ≡ b
ok-injective e = cc

-- Three tests in turn before a call
guards-pass :
    (a b c : Bool) (called : Result Bool)
    → (if not a
        then ok false
        else if not b
        then ok false
        else if not c
        then ok false
        else or_false called)
      ≡ ok true
    → (a ≡ true) × (b ≡ true) × (called ≡ ok true)
guards-pass true true true (ok x) h = (refl, refl, h)
guards-pass true true true (raise x) h = absurd (ground arith)
guards-pass true true false called h = absurd (ground arith)
guards-pass true false c called h = absurd (ground arith)
guards-pass false b c called h = absurd (ground arith)

-- The parts that pass
check_parts-passes :
    (oprn secure : Text)
    → check_parts oprn secure ≡ ok true
    → (length oprn ≡ 16)
      × (length secure ≡ 3)
      × (k : ℕ) × (gen_checksum (take 12 (drop 3 oprn) ++ secure) ≡ ok k)
      × (elem k (drop 15 oprn) ≡ true)
unfolding check_parts
check_parts-passes oprn secure h =
    let base = take 12 (drop 3 oprn) in
    let called = gen_checksum (base ++ secure) in
    let (l, m, e) =
      guards-pass (length oprn == 16) (length secure == 3) (isalnum base)
        (called >>= λ k. ok (elem k (drop 15 oprn))) h in
    let (k, c, f) = >>=-eq-ok called (λ k. ok (elem k (drop 15 oprn))) e in
    ((==_iff _ _).0 l, (==_iff _ _).0 m, k, c, ok-injective f)

elem_self : (k : ℕ) → elem k (k ∷ []) ≡ true
elem_self k = ground arith

check_parts-accepts :
    (oprn secure : Text) (k : ℕ)
    → length oprn ≡ 16
    → length secure ≡ 3
    → isalnum (take 12 (drop 3 oprn)) ≡ true
    → gen_checksum (take 12 (drop 3 oprn) ++ secure) ≡ ok k
    → drop 15 oprn ≡ k ∷ []
    → check_parts oprn secure ≡ ok true
unfolding check_parts
check_parts-accepts oprn secure k l m n e d =
    let found : elem k (drop 15 oprn) ≡ true = ap (elem k) d ∙ elem_self k in ground arith

all-++ :
    {A : Type 0} (p : A → Bool) (xs ys : List A)
    → all p (xs ++ ys) ≡ true
    → (all p xs ≡ true) × (all p ys ≡ true)
all-++ p [] ys h = (refl, h)
all-++ p (x ∷ xs) ys h = ground (arith, all-++ p xs ys)

-- The pieces of the first part
pieces :
    (oprn : Text) (k : ℕ)
    → length oprn ≡ 16
    → elem k (drop 15 oprn) ≡ true
    → oprn ≡ take 3 oprn ++ (take 12 (drop 3 oprn) ++ k ∷ [])
pieces oprn k l h =
    let last = singleton (drop 15 oprn) k (length-drop 15 oprn ∙ omega arith) h in
    let twice = drop-twice oprn in
    let outer = take-drop 3 oprn in
    let inner = take-drop 12 (drop 3 oprn) in
    let tail : drop 3 oprn ≡ take 12 (drop 3 oprn) ++ k ∷ [] =
      sym inner ∙ ap (λ r. take 12 (drop 3 oprn) ++ r) (sym twice ∙ last) in
    sym outer ∙ ap (λ r. take 3 oprn ++ r) tail

country_free : (oprn : Text) → elem 45 oprn ≡ false → elem 45 (take 3 oprn) ≡ false
country_free oprn h =
    let whole : elem 45 (take 3 oprn ++ drop 3 oprn) ≡ false =
      ap (elem 45) (take-drop 3 oprn) ∙ h in
    ground (arith, elem-++ 45 (take 3 oprn) (drop 3 oprn))

is_valid_registration-IsRegistration :
    (number : Text) → is_valid_registration number ≡ ok true → IsRegistration number
unfolding is_valid_registration
is_valid_registration-IsRegistration number h = elim (Option-cases (two_parts number)) [
  | inl e ↦ absurd (ground arith)
  | inr ((oprn, secure), e) ↦
      let (w, free, _) = (two_parts_iff number oprn secure).0 e in
      let (l, m, k, c, found) = check_parts-passes oprn secure (ground arith) in
      let p = pieces oprn k l found in
      record {
        country = take 3 oprn;
        base = take 12 (drop 3 oprn);
        check = k;
        secure = secure;
        country_length = length-take 3 oprn (omega arith);
        base_length = length-take 12 (drop 3 oprn) (omega (arith, length-drop 3 oprn));
        secure_length = m;
        dash_free = country_free oprn free;
        checked = c;
        written = w ∙ ap (λ r. r ++ 45 ∷ secure) p;
      }
]

-- The pieces of the number are found again.
piece_base :
    (country base : Text) (k : ℕ)
    → length country ≡ 3
    → length base ≡ 12
    → (take 12 (drop 3 (country ++ (base ++ k ∷ []))) ≡ base)
      × (drop 15 (country ++ (base ++ k ∷ [])) ≡ k ∷ [])
piece_base country base k l m =
    let rest = base ++ k ∷ [] in
    let after : drop 3 (country ++ rest) ≡ rest =
      ap (λ n. drop n (country ++ rest)) (sym l) ∙ drop-append country rest in
    (
      ap (take 12) after ∙ ap (λ n. take n rest) (sym m) ∙ take-append base (k ∷ []),
      drop-twice (country ++ rest)
          ∙ ap (drop 12) after
          ∙ ap (λ n. drop n rest) (sym m)
          ∙ drop-append base (k ∷ []),
    )

checksum-dash_free : (t : Text) (k : ℕ) → gen_checksum t ≡ ok k → elem 45 (k ∷ []) ≡ false
checksum-dash_free t k h =
    let (vs, _, e) = gen_checksum-value t k h in
    let r = control_number-range vs in not_dash (control_number vs) k r e

checksum_parts :
    (base secure : Text) (k : ℕ)
    → gen_checksum (base ++ secure) ≡ ok k
    → length base ≡ 12
    → (isalnum base ≡ true) × (elem 45 base ≡ false) × (elem 45 secure ≡ false)
checksum_parts base secure k h l =
    let alphanumeric = gen_checksum-alphanumeric (base ++ secure) k h in
    let (p, q) = all-++ _ base secure (isalnum-all (base ++ secure) alphanumeric) in
    (isalnum_long base p l, alphanumerics-dash_free base p, alphanumerics-dash_free secure q)

if_parts :
    (number oprn secure : Text)
    → two_parts number ≡ some (oprn, secure)
    → check_parts oprn secure ≡ ok true
    → is_valid_registration number ≡ ok true
unfolding is_valid_registration
if_parts number oprn secure e h = rw (is_valid_registration, e) h

IsRegistration-is_valid_registration :
    (number : Text) → IsRegistration number → is_valid_registration number ≡ ok true
unfolding is_valid_registration
IsRegistration-is_valid_registration number r =
    let oprn = r.country ++ (r.base ++ r.check ∷ []) in
    let (alphanumeric, base_free, secure_free) =
      checksum_parts r.base r.secure r.check r.checked r.base_length in
    let (b, d) = piece_base r.country r.base r.check r.country_length r.base_length in
    let check_free = checksum-dash_free (r.base ++ r.secure) r.check r.checked in
    let free : elem 45 oprn ≡ false =
      ground
        (arith, elem-++ 45 r.country (r.base ++ r.check ∷ []), elem-++ 45 r.base (r.check ∷ [])) in
    let parts = (two_parts_iff number oprn r.secure).1 (r.written, free, secure_free) in
    let passes =
      check_parts-accepts oprn r.secure r.check
        (omega (
          arith,
          length-append r.country (r.base ++ r.check ∷ []),
          length-append r.base (r.check ∷ []),
          r.country_length,
          r.base_length,
        ))
        r.secure_length (ap isalnum b ∙ alphanumeric)
        (ap (λ x. gen_checksum (x ++ r.secure)) b ∙ r.checked) d in
    if_parts number oprn r.secure parts passes

-- A registration number is valid just when it is three characters without a dash, twelve
-- alphanumeric characters, the check character that `gen_checksum` gives the twelve with the last
-- three, a dash and those three.
pub is_valid_registration_iff :
    (number : Text) → (is_valid_registration number ≡ ok true) ↔ IsRegistration number
is_valid_registration_iff number =
    (is_valid_registration-IsRegistration number, IsRegistration-is_valid_registration number)
