-- ===== src/Scd/Checksum.antt =====
-- What the checksum of a registration number detects.
use flight_blender.Prelude.{
  ◌≢◌, inl, inr, ◌⊎◌, ℕ, ◌+◌, ◌-◌, ◌%◌, ◌<◌, ◌≡◌, refl, Bool, true, false, not, List, [], ◌∷◌, ◌++◌,
  arith, if◌then◌else◌,
}
use flight_blender.Exceptions.{ok, traverse, >>=-eq-ok}
use flight_blender.Scd.Registration.{
  code_point, value_of, gen_checksum, Text, partial_sum, weighted, control_number,
}

-- The factor at the place after some characters, and the sum of the other characters.
abbrev factor : Bool → List ℕ → ℕ
factor twice [] = if twice then 2 else 1
factor twice (v ∷ vs) = factor (not twice) vs

abbrev others : Bool → List ℕ → List ℕ → ℕ
others twice [] after = weighted (not twice) after
others twice (v ∷ vs) after = partial_sum v (if twice then 2 else 1) + others (not twice) vs after

weighted-split :
    (twice : Bool) (before after : List ℕ) (v : ℕ)
    → weighted twice (before ++ v ∷ after)
      ≡ others twice before after + partial_sum v (factor twice before)
unfolding weighted
weighted-split twice [] after v = omega arith
weighted-split twice (u ∷ before) after v = omega (arith, weighted-split (not twice) before after v)

factor-cases : (twice : Bool) (vs : List ℕ) → (factor twice vs ≡ 1) ⊎ (factor twice vs ≡ 2)
factor-cases true [] = inr refl
factor-cases false [] = inl refl
factor-cases twice (v ∷ vs) = factor-cases (not twice) vs

-- The share of a character is less than 36, and equal shares are of equal characters.
partial_sum-range : (x : ℕ) → x < 36 → (partial_sum x 1 < 36) × (partial_sum x 2 < 36)
unfolding partial_sum
partial_sum-range x hx = (omega arith, omega arith)

partial_sum-injective-once : (x y : ℕ) → x < 36 → y < 36 → partial_sum x 1 ≡ partial_sum y 1 → x ≡ y
unfolding partial_sum
partial_sum-injective-once x y hx hy e = omega arith

partial_sum-injective-twice :
    (x y : ℕ) → x < 36 → y < 36 → partial_sum x 2 ≡ partial_sum y 2 → x ≡ y
unfolding partial_sum
partial_sum-injective-twice x y hx hy e = omega arith

same_remainder :
    (o p q : ℕ) → p < 36 → q < 36 → (36 - (o + p) % 36) % 36 ≡ (36 - (o + q) % 36) % 36 → p ≡ q
same_remainder o p q hp hq e = omega arith

-- Two texts of characters' values that differ in one place have different control numbers.
control_number-detects :
    (before after : List ℕ) (x y : ℕ)
    → x < 36
    → y < 36
    → control_number (before ++ x ∷ after) ≡ control_number (before ++ y ∷ after)
    → x ≡ y
unfolding control_number
control_number-detects before after x y hx hy e =
    let hp = partial_sum-range x hx in
    let hq = partial_sum-range y hy in
    let split_x = weighted-split true before after x in
    let split_y = weighted-split true before after y in
    elim (factor-cases true before) [
      | inl once ↦ partial_sum-injective-once x y hx hy (
          same_remainder (others true before after) (partial_sum x 1) (partial_sum y 1) (hp.0)
            (hq.0) cc)
      | inr twice ↦ partial_sum-injective-twice x y hx hy (
          same_remainder (others true before after) (partial_sum x 2) (partial_sum y 2) (hp.1)
            (hq.1) cc)
    ]

pub control_number-range : (vs : List ℕ) → control_number vs < 36
unfolding control_number
control_number-range vs = omega arith

-- What a character's value says of the character.
value_of-range : (c v : ℕ) → value_of c ≡ ok v → (v < 36) × (c ≡ code_point v)
unfolding value_of code_point
value_of-range c v h = ground arith

code_point-injective : (v w : ℕ) → v < 36 → w < 36 → code_point v ≡ code_point w → v ≡ w
unfolding code_point
code_point-injective v w hv hw e = ground arith

-- The values of a text with one place marked.
traverse-split :
    (before after : Text) (c : ℕ) {vs : List ℕ}
    → traverse value_of (before ++ c ∷ after) ≡ ok vs
    → (us : List ℕ) × (x : ℕ) × (ws : List ℕ) × (traverse value_of before ≡ ok us)
      × (value_of c ≡ ok x)
      × (traverse value_of after ≡ ok ws)
      × (vs ≡ us ++ x ∷ ws)
traverse-split [] after c h =
    let (x, e1, h1) = >>=-eq-ok (value_of c) _ h in
    let (ws, e2, h2) = >>=-eq-ok (traverse value_of after) _ h1 in ([], x, ws, refl, e1, e2, cc)
traverse-split (b ∷ before) after c h =
    let (u, e1, h1) = >>=-eq-ok (value_of b) _ h in
    let (rest, e2, h2) = >>=-eq-ok (traverse value_of (before ++ c ∷ after)) _ h1 in
    let (us, x, ws, f1, f2, f3, f4) = traverse-split before after c e2 in
    (u ∷ us, x, ws, rw (e1, f1), f2, f3, cc)

pub gen_checksum-value :
    (raw_id : Text) (k : ℕ)
    → gen_checksum raw_id ≡ ok k
    → (vs : List ℕ) × (traverse value_of raw_id ≡ ok vs) × (k ≡ code_point (control_number vs))
unfolding gen_checksum
gen_checksum-value raw_id k h =
    let (vs, e, h1) =
      >>=-eq-ok (traverse value_of raw_id) (λ vs. ok (code_point (control_number vs))) {last = k}
        (ground arith) in
    (vs, e, ground arith)

-- Equal check characters of texts that differ at one place at most
gen_checksum-injective :
    (before after : Text) (c d k : ℕ)
    → gen_checksum (before ++ c ∷ after) ≡ ok k
    → gen_checksum (before ++ d ∷ after) ≡ ok k
    → c ≡ d
gen_checksum-injective before after c d k hc hd =
    let (vs, ev, kv) = gen_checksum-value (before ++ c ∷ after) k hc in
    let (ws, ew, kw) = gen_checksum-value (before ++ d ∷ after) k hd in
    let (us, x, ts, a1, a2, a3, a4) = traverse-split before after c ev in
    let (us', y, ts', b1, b2, b3, b4) = traverse-split before after d ew in
    let (hx, cx) = value_of-range c x a2 in
    let (hy, dy) = value_of-range d y b2 in
    let same =
      code_point-injective (control_number vs) (control_number ws) (control_number-range vs)
        (control_number-range ws) (cc) in
    let same_us : us' ≡ us = cc in
    let same_ts : ts' ≡ ts = cc in
    let digits : x ≡ y = control_number-detects us ts x y hx hy (cc) in cc

-- Where the check character of a text is computed, no text that has another character at one place,
-- and the same characters elsewhere, has that check character.
pub gen_checksum-detects :
    (before after : Text) (c d k : ℕ)
    → c ≢ d
    → gen_checksum (before ++ c ∷ after) ≡ ok k
    → gen_checksum (before ++ d ∷ after) ≢ ok k
gen_checksum-detects before after c d k differ hc hd =
    differ (gen_checksum-injective before after c d k hc hd)
