-- ===== src/Declarations/Paging.antt =====
-- The pages of the listing of declarations.
use flight_blender.Repositories.Serialize.{serialize}
use flight_blender.Prelude.{
  elem, is_empty, none, ◌||◌, leb, some, true, inl, inr, sym, ℕ, zero, suc, ◌+◌, ◌-◌, ◌*◌, ◌≤◌, ◌≡◌,
  refl, ap, ◌∙◌, Bool, ◌&&◌, Option, List, [], ◌∷◌, ◌++◌, arith, take, drop, length, select,
}
use flight_blender.Exceptions.{ok, traverse, Result-cases}
use flight_blender.World.{Declaration, World}
use flight_blender.Repositories.Tables.{
  count, IsDesc, order_by_desc, order_by_desc-IsDesc, count-order_by_desc,
}
use flight_blender.Repositories.Declarations.{is_listed, list}
use flight_blender.Declarations.Updates.{listed, states, list_flight_declarations, Listing, page_of}

module _ {ℓ} {A : Type ℓ} where
  take_nil : (n : ℕ) → take {A = A} n [] ≡ []
  take_nil zero = refl
  take_nil (suc n) = refl

  take_add : (n m k : ℕ) (xs : List A) → k ≡ n + m → take k xs ≡ take n xs ++ take m (drop n xs)
  take_add zero m k xs h = ap (λ j. take j xs) (omega arith)
  take_add (suc n) m k [] h = take_nil k ∙ sym (take_nil m)
  take_add (suc n) m zero (x ∷ xs) h = absurd (omega arith)
  take_add (suc n) m (suc k) (x ∷ xs) h = ap (λ ys. x ∷ ys) (take_add n m k xs (omega arith))

  length-take_le : (n : ℕ) (xs : List A) → length (take n xs) ≤ n
  length-take_le zero xs = omega arith
  length-take_le (suc n) [] = omega arith
  length-take_le (suc n) (x ∷ xs) = omega (arith, length-take_le n xs)

  -- The pages up to one are the pages before it and then that page, for the pages from 1 on; page 0 is
  -- page 1. No page is longer than asked for.
  pub page_of-append :
      (page page_size : ℕ) (items : List A)
      → (take ((page + 1) * page_size) items
          ≡ take (page * page_size) items ++ page_of (page + 1) page_size items)
        × (page_of 0 page_size items ≡ page_of 1 page_size items)
        × (length (page_of page page_size items) ≤ page_size)
  unfolding page_of
  page_of-append page page_size items = (
    take_add (page * page_size) page_size ((page + 1) * page_size) items (omega arith)
        ∙ ap (λ k. take (page * page_size) items ++ take page_size (drop (k * page_size) items))
            (omega arith),
    refl,
    length-take_le page_size (drop ((page - 1) * page_size) items),
  )

count-select :
    {A : Type 0} (p q : A → Bool) (xs : List A) → count p (select q xs) ≡ count (λ x. q x && p x) xs
count-select p q [] = refl
count-select p q (x ∷ xs) = ground (arith, count-select p q xs)

-- The rows that `list` gives are sorted, the newest first, and are exactly the rows of the table that
-- its conditions let through, as often as they are there.
pub list-IsDesc :
    (start_date end_date : Option ℕ) (wanted : Option (List ℕ)) (w : World)
    → (items : List Declaration) × (list start_date end_date wanted w ≡ (ok items, w))
      × IsDesc (λ d. d.created_at) items
      × ((p : Declaration → Bool)
          → count p items
            ≡ count (λ d. is_listed start_date end_date wanted d && p d) w.db.declarations)
unfolding list
list-IsDesc start_date end_date wanted w =
    let rows = select (is_listed start_date end_date wanted) w.db.declarations in
    (
      order_by_desc (λ (d : Declaration). d.created_at) rows,
      refl,
      order_by_desc-IsDesc (λ (d : Declaration). d.created_at) rows,
      λ p.
          count-order_by_desc p (λ (d : Declaration). d.created_at) rows
          ∙ count-select p (is_listed start_date end_date wanted) w.db.declarations,
    )

length-count : {A : Type 0} (xs : List A) → length xs ≡ count (λ x. true) xs
length-count [] = refl
length-count (x ∷ xs) = omega (arith, length-count xs)

-- A listing that answers writes nothing. There is a list of the rows, the newest first, that has each
-- row of the table as often as the table has it where the row starts at or after the first date, ends
-- at or before the second, and has one of the wanted states, if any are given; and has no other. The
-- answer counts that list, whatever the page, and its results are the serialised rows of the slice
-- of `page_size` rows after `(page - 1) * page_size`.
pub list_flight_declarations-pages :
    (s_date e_date page page_size status : ℕ) (wanted : Option (List ℕ)) (l : Listing)
    (w w' : World)
    → list_flight_declarations s_date e_date (states wanted) page page_size w
      ≡ (ok (listed l, status), w')
    → (w' ≡ w)
      × (status ≡ 200)
      × ((items : List Declaration) × IsDesc (λ d. d.created_at) items
          × ((p : Declaration → Bool)
              → count p items
                ≡ count
                    (λ d.
                      (leb s_date d.start_datetime
                        && leb d.end_datetime e_date
                        && elim wanted [ none ↦ true | some xs ↦ is_empty xs || elem d.state xs ])
                      && p d)
                    w.db.declarations)
          × (l.count ≡ length items)
          × (traverse serialize (take page_size (drop ((page - 1) * page_size) items))
              ≡ ok l.results))
unfolding list_flight_declarations is_listed page_of
list_flight_declarations-pages s_date e_date page page_size status wanted l w w' h =
    let (items, listed_all, sorted, all_there) = list-IsDesc (some s_date) (some e_date) wanted w in
    elim (Result-cases
      (traverse serialize (take page_size (drop ((page - 1) * page_size) items)))) [
        | inr (x, e) ↦ absurd (ground arith)
        | inl (ys, e) ↦
            (ground arith, ground arith, (items, sorted, all_there, ground arith, ground arith))
      ]
