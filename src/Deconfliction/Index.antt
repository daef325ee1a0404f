-- ===== src/Deconfliction/Index.antt =====
-- The R-tree of the package `rtree` as an interface: an index in a file, with the entries that it
-- holds. The code reaches it through the two index factories
-- (flight_blender/utils/spatial_geo_fence.py, flight_blender/utils/spatial_flight_declarations.py).
use flight_blender.Prelude.{
  ℕ, ℤ, ◌≡◌, Bool, ◌&&◌, List, [], ◌∷◌, leb_ℤ, ◌==◌, elem, eq_ℤ, if◌then◌else◌,
}
use flight_blender.Exceptions.{index_error, Result, ok, raise}

-- Minimum and maximum of the two coordinates, in the order of `coordinates`.
pub record Box : Type 0 where
  pub x_min : ℤ
  pub y_min : ℤ
  pub x_max : ℤ
  pub y_max : ℤ

-- `(view[0], view[1], view[2], view[3])`
abbrev pub box_of : List ℤ → Result Box
box_of (a ∷ b ∷ c ∷ d ∷ rest) = ok (record { x_min = a; y_min = b; x_max = c; y_max = d })
box_of _ = raise index_error

abbrev pub same_box : Box → Box → Bool
same_box a b =
    eq_ℤ a.x_min b.x_min && eq_ℤ a.y_min b.y_min && eq_ℤ a.x_max b.x_max && eq_ℤ a.y_max b.y_max

-- Boxes that share a point, their borders included.
abbrev pub meets : Box → Box → Bool
meets a b =
    leb_ℤ a.x_min b.x_max && leb_ℤ b.x_min a.x_max && leb_ℤ a.y_min b.y_max && leb_ℤ b.y_min a.y_max

-- An entry: the number given to it, its box, and the row that its object names.
pub record Entry : Type 0 where
  pub number : ℕ
  pub box : Box
  pub row : ℕ

abbrev pub is_entry : ℕ → Box → Entry → Bool
is_entry number box e = e.number == number && same_box e.box box

-- The entries without the first one that has the number and the box.
abbrev pub remove : ℕ → Box → List Entry → List Entry
remove number box [] = []
remove number box (e ∷ es) =
    let rest = remove number box es in if is_entry number box e then es else e ∷ rest

abbrev pub rows_meeting : Box → List Entry → List ℕ
rows_meeting box [] = []
rows_meeting box (e ∷ es) =
    let rest = rows_meeting box es in if meets e.box box then e.row ∷ rest else rest

-- The operations of an index that may raise: a box with a minimum above its maximum is refused.
pub record RTree : Type 1 where
  pub Index : Type 0
  pub insert : ℕ → Box → ℕ → Index → Result Index
  pub delete : ℕ → Box → Index → Result Index
  pub intersection : Box → Index → Result (List ℕ)
  pub entries : Index → List Entry

-- What the documentation of `rtree` says of entries: an insertion that succeeds adds one, a deletion
-- removes one with that number and exactly those coordinates if there
-- is one, and an intersection names the rows whose boxes meet the given one.
pub record IsRTree (t : RTree) : Type 0 where
  pub entries-insert :
      (number : ℕ) (box : Box) (row : ℕ) (i j : t.Index)
      → t.insert number box row i ≡ ok j
      → t.entries j ≡ record { number = number; box = box; row = row } ∷ t.entries i
  pub entries-delete :
      (number : ℕ) (box : Box) (i j : t.Index)
      → t.delete number box i ≡ ok j
      → t.entries j ≡ remove number box (t.entries i)
  pub intersection-rows :
      (box : Box) (i : t.Index) (rows : List ℕ) (row : ℕ)
      → t.intersection box i ≡ ok rows
      → elem row rows ≡ elem row (rows_meeting box (t.entries i))
