-- ===== src/Scd/Dash.antt =====
-- A registration number parted at its dash, and the characters that are no dash.
use flight_blender.Prelude.{
  ◌<◌, all, ◌||◌, ℕ, ◌≡◌, refl, ap, ◌∙◌, ◌↔◌, true, false, none, some, List, [], ◌∷◌, ◌++◌, arith,
  elem, length, Option-cases, inl, inr, drop,
}
use flight_blender.Exceptions.{ok}
use flight_blender.Scd.Registration.{
  code_point, is_upper, is_lower, is_digit, Text, split_first, two_parts, isalnum, gen_checksum,
}

-- A dash parts the text at its first place, or is not in it.
split_first-some :
    (t : Text) {a b : Text} → split_first t ≡ some (a, b) → (t ≡ a ++ 45 ∷ b) × (elem 45 a ≡ false)
split_first-some [] h = absurd (ground arith)
split_first-some (c ∷ cs) h = elim (Option-cases (split_first cs)) [
  | inl e ↦ ground arith
  | inr (rest, e) ↦ ground (arith, split_first-some cs e)
]

split_first-none : (t : Text) → split_first t ≡ none → elem 45 t ≡ false
split_first-none [] h = refl
split_first-none (c ∷ cs) h = ground (arith, Option-cases (split_first cs), split_first-none cs)

split_first-append : (a b : Text) → elem 45 a ≡ false → split_first (a ++ 45 ∷ b) ≡ some (a, b)
split_first-append [] b h = refl
split_first-append (c ∷ a) b h = ground (arith, split_first-append a b)

split_first-dash_free : (t : Text) → elem 45 t ≡ false → split_first t ≡ none
split_first-dash_free [] h = refl
split_first-dash_free (c ∷ cs) h = ground (arith, split_first-dash_free cs)

-- The two parts are those of a text with one dash.
pub two_parts_iff :
    (t a b : Text)
    → (two_parts t ≡ some (a, b)) ↔ ((t ≡ a ++ 45 ∷ b) × (elem 45 a ≡ false) × (elem 45 b ≡ false))
unfolding two_parts
two_parts_iff t a b = (
  λ h. elim (Option-cases (split_first t)) [
    | inl e ↦ absurd (ground arith)
    | inr ((c, d), e) ↦ elim (Option-cases (split_first d)) [
      | inl f ↦ ground (arith, split_first-some t e, split_first-none d f)
      | inr (p, f) ↦ absurd (ground arith)
    ]
  ],
  λ (e, free_a, free_b).
      let first : split_first t ≡ some (a, b) = ap split_first e ∙ split_first-append a b free_a in
      ground (arith, split_first-dash_free b free_b),
)

pub elem-++ : (n : ℕ) (xs ys : List ℕ) → elem n (xs ++ ys) ≡ (elem n xs || elem n ys)
elem-++ n [] ys = refl
elem-++ n (x ∷ xs) ys = ground (arith, elem-++ n xs ys)

pub alphanumerics-dash_free :
    (t : Text) → all (λ c. is_digit c || is_lower c || is_upper c) t ≡ true → elem 45 t ≡ false
alphanumerics-dash_free [] h = refl
alphanumerics-dash_free (c ∷ cs) h = ground (arith, alphanumerics-dash_free cs)

isalnum-dash_free : (t : Text) → isalnum t ≡ true → elem 45 t ≡ false
isalnum-dash_free t h = ground (arith, alphanumerics-dash_free t)

pub isalnum-all :
    (t : Text) → isalnum t ≡ true → all (λ c. is_digit c || is_lower c || is_upper c) t ≡ true
isalnum-all t h = ground arith

pub isalnum_long :
    (t : Text)
    → all (λ c. is_digit c || is_lower c || is_upper c) t ≡ true
    → length t ≡ 12
    → isalnum t ≡ true
isalnum_long [] h l = absurd (ground arith)
isalnum_long (c ∷ cs) h l = ground arith

pub not_dash : (v k : ℕ) → v < 36 → k ≡ code_point v → elem 45 (k ∷ []) ≡ false
unfolding code_point
not_dash v k h e = ground arith

pub gen_checksum-alphanumeric : (t : Text) (k : ℕ) → gen_checksum t ≡ ok k → isalnum t ≡ true
unfolding gen_checksum
gen_checksum-alphanumeric t k h = ground arith

-- A text of sixteen characters in its pieces.
pub singleton : (xs : Text) (k : ℕ) → length xs ≡ 1 → elem k xs ≡ true → xs ≡ k ∷ []
singleton [] k l h = ground arith
singleton (x ∷ []) k l h = ground arith
singleton (x ∷ y ∷ xs) k l h = absurd (ground arith)

pub drop-twice : (xs : Text) → drop 15 xs ≡ drop 12 (drop 3 xs)
drop-twice [] = refl
drop-twice (x ∷ []) = refl
drop-twice (x ∷ y ∷ []) = refl
drop-twice (x ∷ y ∷ z ∷ xs) = refl
