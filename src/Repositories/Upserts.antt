-- ===== src/Repositories/Upserts.antt =====
-- The writes that change the row that fits or add a row, and what they do to the keys of a table.
use flight_blender.Prelude.{
  ℕ, ◌+◌, ◌≤◌, ◌≡◌, refl, Bool, true, false, List, [], ◌∷◌, ◌++◌, arith, ◌==◌, find, is_some,
  if◌then◌else◌,
}
use flight_blender.Repositories.Tables.{set_where, count}

-- The row that fits is changed; where there is none, a new row is added.
abbrev pub upsert {ℓ} : {A : Type ℓ} → (A → Bool) → (A → A) → A → List A → List A
upsert fits change new rows =
    if is_some (find fits rows) then set_where fits change rows else rows ++ new ∷ []

-- What an upsert does to the rows with a key, where the change leaves the key alone.
module _ {A : Type 0} (key : A → ℕ) (change : A → A)
    (keeps : (a : A) → key (change a) ≡ key a) where
  pub is_some-set :
      (k j : ℕ) (rows : List A)
      → is_some (find (λ r. key r == j) rows) ≡ true
      → is_some (find (λ r. key r == j) (set_where (λ r. key r == k) change rows)) ≡ true
  is_some-set k j [] h = h
  is_some-set k j (x ∷ xs) h = ground (arith, keeps x, is_some-set k j xs)

  pub is_some-snoc :
      (j : ℕ) (new : A) (rows : List A)
      → is_some (find (λ r. key r == j) rows) ≡ true
      → is_some (find (λ r. key r == j) (rows ++ new ∷ [])) ≡ true
  is_some-snoc j new [] h = cc
  is_some-snoc j new (x ∷ xs) h = ground (arith, is_some-snoc j new xs)

  -- A key that is there stays there.
  pub is_some-upsert :
      (k j : ℕ) (new : A) (rows : List A)
      → is_some (find (λ r. key r == j) rows) ≡ true
      → is_some (find (λ r. key r == j) (upsert (λ r. key r == k) change new rows)) ≡ true
  is_some-upsert k j new rows h = ground (arith, is_some-set k j rows h, is_some-snoc j new rows h)

  pub count-set :
      (k j : ℕ) (rows : List A)
      → count (λ r. key r == j) (set_where (λ r. key r == k) change rows)
        ≡ count (λ r. key r == j) rows
  count-set k j [] = refl
  count-set k j (x ∷ xs) = ground (arith, keeps x, count-set k j xs)

  pub count-snoc :
      (p : A → Bool) (new : A) (rows : List A)
      → count p (rows ++ new ∷ []) ≡ count p rows + (if p new then 1 else 0)
  count-snoc p new [] = ground arith
  count-snoc p new (x ∷ xs) = ground (arith, count-snoc p new xs)

  pub count-none :
      (k : ℕ) (rows : List A)
      → is_some (find (λ r. key r == k) rows) ≡ false
      → count (λ r. key r == k) rows ≡ 0
  count-none k [] h = refl
  count-none k (x ∷ xs) h = ground (arith, count-none k xs)

  -- A key that is there at most once stays so.
  pub count-upsert :
      (k j : ℕ) (new : A) (rows : List A)
      → key new ≡ k
      → count (λ r. key r == j) rows ≤ 1
      → count (λ r. key r == j) (upsert (λ r. key r == k) change new rows) ≤ 1
  count-upsert k j new rows same h =
      ground (arith, count-set k j rows, count-snoc (λ r. key r == j) new rows, count-none k rows)
