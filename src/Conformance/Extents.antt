-- ===== src/Conformance/Extents.antt =====
-- What the JSON of a declared volume says of its extent, against what `FlightBlenderConformanceEngine`
-- reads from it (flight_blender/services/conformance_svc.py).
use mathlib.Core.List.{Memᴰ}
use flight_blender.Prelude.{
  sym, inl, inr, ℤ, ◌≡◌, refl, ap, ◌∙◌, Option, none, some, List, [], ◌∷◌, ◌++◌, arith, Bool-cases,
}
use flight_blender.Exceptions.{
  Exc, attribute_error, Result, ok, ◌>>=◌, traverse, >>=-eq-ok, or_raise,
}
use flight_blender.Json.{Json, item, elements, number, has_key}
use flight_blender.Conformance.Volumes.{
  read_time, read_circle, Altitude, LatLngPoint, Volume4d, cast_to_volume4d, read_polygon,
  read_point, pop, read_altitude,
}
use flight_blender.Conformance.Engine.{Geometry, PolygonAltitude, polygon_altitude, point_of}

-- A vertex of the outline: longitude and latitude, each a number
abbrev pub read_corner : Json → Result (ℤ × ℤ)
read_corner c = item "lat" c >>= λ lat.
    item "lng" c >>= λ lng. number lng >>= λ x. number lat >>= λ y. ok (x, y)

-- The polygon of a volume, from all its vertices but the last, and the values of its altitudes
pub record Extent (g : Geometry) (v : Json) : Type 0 where
  pub volume : Json
  pub outline_polygon : Json
  pub vertices : Json
  pub corners : List Json
  pub last : Json
  pub points : List (ℤ × ℤ)
  pub outline : g.Polygon
  pub lower : Json
  pub upper : Json
  pub altitude_lower : Json
  pub altitude_upper : Json
  pub has_volume : item "volume" v ≡ ok volume
  pub has_outline : item "outline_polygon" volume ≡ ok outline_polygon
  pub has_vertices : item "vertices" outline_polygon ≡ ok vertices
  pub listed : elements vertices ≡ ok (corners ++ last ∷ [])
  pub read : traverse read_corner corners ≡ ok points
  pub built : g.polygon points ≡ ok outline
  pub has_lower : item "altitude_lower" volume ≡ ok lower
  pub lower_value : item "value" lower ≡ ok altitude_lower
  pub has_upper : item "altitude_upper" volume ≡ ok upper
  pub upper_value : item "value" upper ≡ ok altitude_upper

read_altitude-value :
    (v : Json) (a : Altitude) → read_altitude v ≡ ok a → item "value" v ≡ ok a.value
read_altitude-value v a h =
    let (value, e, h1) = >>=-eq-ok (item "value" v) _ h in
    let (reference, e1, h2) = >>=-eq-ok (item "reference" v) _ h1 in
    let (units, e2, h3) = >>=-eq-ok (item "units" v) _ h2 in ground (arith, e, h3)

ok_injective : {A : Type 0} {a b : A} → ok a ≡ ok b → a ≡ b
ok_injective h = cc

or_raise-ok : {A : Type 0} (o : Option A) (e : Exc) (a : A) → or_raise o e ≡ ok a → o ≡ some a
or_raise-ok none e a h = cc
or_raise-ok (some b) e a h = ap some (ok_injective h)

module _ (g : Geometry) where
  read_corner-ok :
      (c : Json) (p : LatLngPoint) (x : ℤ × ℤ)
      → read_point c ≡ ok p
      → point_of g p ≡ ok x
      → read_corner c ≡ ok x
  unfolding point_of
  read_corner-ok c p x h k =
      let (lat, e, h1) = >>=-eq-ok (item "lat" c) _ h in
      let (lng, e1, h2) = >>=-eq-ok (item "lng" c) _ h1 in ground arith

  -- The vertices that are kept are all but the last.
  read_corners :
      (vs : List Json) (ps kept : List LatLngPoint) (points : List (ℤ × ℤ))
      → traverse read_point vs ≡ ok ps
      → pop ps ≡ ok kept
      → traverse (point_of g) kept ≡ ok points
      → (corners : List Json) × ((last : Json) × (vs ≡ corners ++ last ∷ [])
          × (traverse read_corner corners ≡ ok points))
  read_corners [] ps kept points h k t =
      let none_read : ps ≡ [] = ground arith in absurd (ground arith)
  read_corners (v ∷ []) ps kept points h k t =
      let (p, e, h1) = >>=-eq-ok (read_point v) _ h in
      let one : ps ≡ p ∷ [] = ground arith in
      let nothing_kept : kept ≡ [] = ground arith in ([], (v, refl, ground arith))
  read_corners (v ∷ v' ∷ vs) ps kept points h k t =
      let (p, e, h1) = >>=-eq-ok (read_point v) _ h in
      let (rest, e1, h2) = >>=-eq-ok (traverse read_point (v' ∷ vs)) _ h1 in
      let (p', e2, h3) = >>=-eq-ok (read_point v') _ e1 in
      let (rest', e3, h4) = >>=-eq-ok (traverse read_point vs) _ h3 in
      let all_read : ps ≡ p ∷ p' ∷ rest' = ground (arith, h2, h4) in
      let same : rest ≡ p' ∷ rest' = ground (arith, h4) in
      let (kept', e4, h5) = >>=-eq-ok (pop (p' ∷ rest')) (λ ys. ok (p ∷ ys)) (rw all_read at k) in
      let kept_lem : p ∷ kept' ≡ kept = ground (arith, h5) in
      let (x, e5, h6) = >>=-eq-ok (point_of g p) _ (rw (sym kept_lem) at t) in
      let (xs, e6, h7) = >>=-eq-ok (traverse (point_of g) kept') _ h6 in
      let (corners, (last, split, read)) =
        read_corners (v' ∷ vs) (p' ∷ rest') kept' xs (e1 ∙ ap ok same) e4 e6 in
      (
        v ∷ corners,
        (last, ap (λ (zs : List Json). v ∷ zs) split, rw (read_corner-ok v p x e e5, read) h7),
      )

  read_polygon-ok :
      (v3 : Json) (kept : List LatLngPoint)
      → read_polygon v3 ≡ ok (some kept)
      → (outline : Json) × ((vertices : Json) × ((vs : List Json) × ((ps : List LatLngPoint) × (item
                  "outline_polygon" v3
                ≡ ok outline)
              × (item "vertices" outline ≡ ok vertices)
              × (elements vertices ≡ ok vs)
              × (traverse read_point vs ≡ ok ps)
              × (pop ps ≡ ok kept))))
  unfolding read_polygon
  read_polygon-ok v3 kept h =
      let (present, e, h1) = >>=-eq-ok (has_key "outline_polygon" v3) _ h in
      elim (Bool-cases present) [
        | inr absent ↦ absurd (ground arith)
        | inl there ↦
            let (outline, e1, h2) = >>=-eq-ok (item "outline_polygon" v3) _ (rw there at h1) in
            let (vertices, e2, h3) = >>=-eq-ok (item "vertices" outline) _ h2 in
            let (vs, e3, h4) = >>=-eq-ok (elements vertices) _ h3 in
            let (ps, e4, h5) = >>=-eq-ok (traverse read_point vs) _ h4 in
            let (kept', e5, h6) = >>=-eq-ok (pop ps) _ h5 in
            let same : kept' ≡ kept = ground (arith, h6) in
            (outline, (vertices, (vs, (ps, e1, e2, e3, e4, e5 ∙ ap ok same))))
      ]

  -- What the engine reads from a volume is its extent.
  pub polygon_altitude-Extent :
      (v : Json) (p : PolygonAltitude g)
      → polygon_altitude g v ≡ ok p
      → (x : Extent g v) × (x.outline ≡ p.outline)
        × (x.altitude_lower ≡ p.altitude_lower)
        × (x.altitude_upper ≡ p.altitude_upper)
  unfolding polygon_altitude cast_to_volume4d
  polygon_altitude-Extent v p h =
      let (v4d, c, h1) = >>=-eq-ok (cast_to_volume4d v) _ h in
      let (v3, e, c1) = >>=-eq-ok (item "volume" v) _ c in
      let (polygon, e1, c2) = >>=-eq-ok (read_polygon v3) _ c1 in
      let (circle, e2, c3) = >>=-eq-ok (read_circle v3) _ c2 in
      let (lower, e3, c4) = >>=-eq-ok (item "altitude_lower" v3) _ c3 in
      let (altitude_lower, e4, c5) = >>=-eq-ok (read_altitude lower) _ c4 in
      let (upper, e5, c6) = >>=-eq-ok (item "altitude_upper" v3) _ c5 in
      let (altitude_upper, e6, c7) = >>=-eq-ok (read_altitude upper) _ c6 in
      let (start, e7, c8) = >>=-eq-ok (item "time_start" v) _ c7 in
      let (time_start, e8, c9) = >>=-eq-ok (read_time start) _ c8 in
      let (end, e9, c10) = >>=-eq-ok (item "time_end" v) _ c9 in
      let (time_end, e10, c11) = >>=-eq-ok (read_time end) _ c10 in
      let (kept, f, h2) = >>=-eq-ok (or_raise v4d.volume.outline_polygon attribute_error) _ h1 in
      let (points, f1, h3) = >>=-eq-ok (traverse (point_of g) kept) _ h2 in
      let (outline, f2, h4) = >>=-eq-ok (g.polygon points) _ h3 in
      let cast = ok_injective c11 in
      let built = ok_injective h4 in
      let kept_lem =
        ap (λ (x : Volume4d). x.volume.outline_polygon) cast ∙ or_raise-ok _ _ kept f in
      let lower_lem =
        ap (λ (x : Volume4d). x.volume.altitude_lower.value) cast
        ∙ ap (λ (x : PolygonAltitude g). x.altitude_lower) built in
      let upper_lem =
        ap (λ (x : Volume4d). x.volume.altitude_upper.value) cast
        ∙ ap (λ (x : PolygonAltitude g). x.altitude_upper) built in
      let outline_lem = ap (λ (x : PolygonAltitude g). x.outline) built in
      let (o, (vertices, (vs, (ps, r1, r2, r3, r4, r5)))) =
        read_polygon-ok v3 kept (e1 ∙ ap ok kept_lem) in
      let (corners, (last, split, read)) = read_corners vs ps kept points r4 r5 f1 in
      (
        record {
          volume = v3;
          outline_polygon = o;
          vertices = vertices;
          corners = corners;
          last = last;
          points = points;
          outline = outline;
          lower = lower;
          upper = upper;
          altitude_lower = altitude_lower.value;
          altitude_upper = altitude_upper.value;
          has_volume = e;
          has_outline = r1;
          has_vertices = r2;
          listed = r3 ∙ ap ok split;
          read = read;
          built = f2;
          has_lower = e3;
          lower_value = read_altitude-value lower altitude_lower e4;
          has_upper = e5;
          upper_value = read_altitude-value upper altitude_upper e6;
        },
        outline_lem,
        lower_lem,
        upper_lem,
      )

-- What a traversal gives comes from an element.
pub traverse-Memᴰ :
    {A B : Type 0} (f : A → Result B) (xs : List A) (ys : List B) (y : B)
    → traverse f xs ≡ ok ys
    → Memᴰ y ys
    → (x : A) × Memᴰ x xs × (f x ≡ ok y)
traverse-Memᴰ f [] ys y h m =
    let none_left : [] ≡ ys = ground arith in no_member (rw (sym none_left) at m)
  where
    no_member : {A : Type 0} {y : A} {R : Type 0} → Memᴰ y [] → R
    no_member m = elim m [ ]
traverse-Memᴰ {A} {B} f (x ∷ xs) ys y h m =
    let (z, e, h1) = >>=-eq-ok (f x) _ h in
    let (zs, e1, h2) = >>=-eq-ok (traverse f xs) _ h1 in
    let same : ys ≡ z ∷ zs = ground (arith, h2) in
    split z e (λ k. traverse-Memᴰ f xs zs y e1 k) (rw same at m)
  where
    split :
        {zs : List B} (z : B)
        → f x ≡ ok z
        → (Memᴰ y zs → (w : A) × Memᴰ w xs × (f w ≡ ok y))
        → Memᴰ y (z ∷ zs)
        → (w : A) × Memᴰ w (x ∷ xs) × (f w ≡ ok y)
    split z e rest (Memᴰ.head k) = (x, Memᴰ.head refl, e ∙ ap ok (sym k))
    split z e rest (Memᴰ.tail k) = let (w, n, p) = rest k in (w, Memᴰ.tail n, p)
