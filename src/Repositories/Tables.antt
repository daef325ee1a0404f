-- ===== src/Repositories/Tables.antt =====
-- Tables as lists of rows with an id: the statements that the repositories give the database.
use flight_blender.Prelude.{
  ◌&&◌, ℕ, ◌+◌, ◌≤◌, ◌≡◌, refl, Bool, not, List, [], ◌∷◌, arith, leb, if◌then◌else◌, select, All,
}

module _ {ℓ} {A : Type ℓ} where
  -- `ORDER BY key DESC`: a stable insertion sort, so that rows of one key keep their order.
  pub insert_desc : (A → ℕ) → A → List A → List A
  insert_desc key x [] = x ∷ []
  insert_desc key x (y ∷ ys) =
      let rest = insert_desc key x ys in if leb (key y) (key x) then x ∷ y ∷ ys else y ∷ rest

  unfoldable pub order_by_desc : (A → ℕ) → List A → List A
  unfolding insert_desc
  order_by_desc key [] = []
  order_by_desc key (x ∷ xs) = insert_desc key x (order_by_desc key xs)

  -- `ORDER BY key`, stable too
  pub insert_asc : (A → ℕ) → A → List A → List A
  insert_asc key x [] = x ∷ []
  insert_asc key x (y ∷ ys) =
      let rest = insert_asc key x ys in if leb (key x) (key y) then x ∷ y ∷ ys else y ∷ rest

  unfoldable pub order_by : (A → ℕ) → List A → List A
  unfolding insert_asc
  order_by key [] = []
  order_by key (x ∷ xs) = insert_asc key x (order_by key xs)

  -- `setattr` on the row that fits
  abbrev pub set_where : (A → Bool) → (A → A) → List A → List A
  set_where p f [] = []
  set_where p f (x ∷ xs) = let rest = set_where p f xs in if p x then f x ∷ rest else x ∷ rest

  -- `DELETE ... WHERE`
  abbrev pub delete_where : (A → Bool) → List A → List A
  delete_where p = select (λ x. not (p x))

  -- Key order: no row has a greater key than the row before it.
  abbrev pub IsDesc : (A → ℕ) → List A → Type 0
  IsDesc key [] = Unit
  IsDesc key (x ∷ xs) = All (λ y. key y ≤ key x) xs × IsDesc key xs

  insert_desc-All :
      (key : A → ℕ) (n : ℕ) (x : A) (xs : List A)
      → key x ≤ n
      → All (λ y. key y ≤ n) xs
      → All (λ y. key y ≤ n) (insert_desc key x xs)
  unfolding insert_desc
  insert_desc-All key n x [] h hs = (h, tt)
  insert_desc-All key n x (y ∷ ys) h hs = ground (arith, insert_desc-All key n x ys h hs.1)

  All-weaken :
      (key : A → ℕ) (n m : ℕ) (xs : List A)
      → n ≤ m
      → All (λ y. key y ≤ n) xs
      → All (λ y. key y ≤ m) xs
  All-weaken key n m [] h hs = tt
  All-weaken key n m (x ∷ xs) h hs = (omega arith, All-weaken key n m xs h hs.1)

  insert_desc-IsDesc :
      (key : A → ℕ) (x : A) (xs : List A) → IsDesc key xs → IsDesc key (insert_desc key x xs)
  unfolding insert_desc
  insert_desc-IsDesc key x [] h = (tt, tt)
  insert_desc-IsDesc key x (y ∷ ys) h = ground (
    arith,
    insert_desc-IsDesc key x ys h.1,
    insert_desc-All key (key y) x ys,
    All-weaken key (key y) (key x) ys,
  )

  pub order_by_desc-IsDesc : (key : A → ℕ) (xs : List A) → IsDesc key (order_by_desc key xs)
  unfolding order_by_desc
  order_by_desc-IsDesc key [] = tt
  order_by_desc-IsDesc key (x ∷ xs) =
      insert_desc-IsDesc key x (order_by_desc key xs) (order_by_desc-IsDesc key xs)

  -- How many rows pass a test.
  abbrev pub count : (A → Bool) → List A → ℕ
  count p [] = 0
  count p (x ∷ xs) = (if p x then 1 else 0) + count p xs

  count-insert_desc :
      (p : A → Bool) (key : A → ℕ) (x : A) (xs : List A)
      → count p (insert_desc key x xs) ≡ count p (x ∷ xs)
  unfolding insert_desc
  count-insert_desc p key x [] = refl
  count-insert_desc p key x (y ∷ ys) = ground (arith, count-insert_desc p key x ys)

  -- Sorting loses and doubles no row.
  pub count-order_by_desc :
      (p : A → Bool) (key : A → ℕ) (xs : List A) → count p (order_by_desc key xs) ≡ count p xs
  unfolding order_by_desc
  count-order_by_desc p key [] = refl
  count-order_by_desc p key (x ∷ xs) =
      omega (arith, count-insert_desc p key x (order_by_desc key xs), count-order_by_desc p key xs)

  count-insert_asc :
      (p : A → Bool) (key : A → ℕ) (x : A) (xs : List A)
      → count p (insert_asc key x xs) ≡ count p (x ∷ xs)
  unfolding insert_asc
  count-insert_asc p key x [] = refl
  count-insert_asc p key x (y ∷ ys) = ground (arith, count-insert_asc p key x ys)

  pub count-order_by :
      (p : A → Bool) (key : A → ℕ) (xs : List A) → count p (order_by key xs) ≡ count p xs
  unfolding order_by
  count-order_by p key [] = refl
  count-order_by p key (x ∷ xs) =
      omega (arith, count-insert_asc p key x (order_by key xs), count-order_by p key xs)

  pub count-select :
      (p q : A → Bool) (xs : List A) → count p (select q xs) ≡ count (λ x. q x && p x) xs
  count-select p q [] = refl
  count-select p q (x ∷ xs) = ground (arith, count-select p q xs)
