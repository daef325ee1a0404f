-- ===== src/Declarations/Unreadable.antt =====
-- The intent that a declaration made from GeoJSON stores, against the conformance engine that reads
-- it.
use flight_blender.Prelude.{
  negsuc, pos, sym, if◌then◌else◌, ℕ, ℤ, ◌≡◌, refl, ap, ◌∙◌, Bool, true, false, not, Option, none,
  some, String, List, [], ◌∷◌, arith, elem, select, ◌==◌, eq_iff,
}
use flight_blender.Exceptions.{or_raise, key_error, Result, ok, raise, ◌>>=◌, traverse, >>=-eq-ok}
use flight_blender.Json.{
  Json, str, field, obj, arr, nil, cons, end, item, get_or, elements, truthy, to_list, keys,
  characters,
}
use flight_blender.Domain.{Settings}
use flight_blender.World.{GeoFence, Declaration, Db}
use flight_blender.Conformance.Volumes.{cast_to_volume4d}
use flight_blender.Conformance.Engine.{
  Geometry, polygon_altitude, check_position, check_declaration, is_time_between,
}
use flight_blender.Declarations.Requests.{Request, Externals}
use flight_blender.Declarations.Validation.{validate_geojson}
use flight_blender.Declarations.Intents.{
  accepted, intent_of_features, new_declaration, array, build_volume,
  build_partial_operational_intent,
}

ok_injective : {A : Type 0} {a b : A} → ok a ≡ ok b → a ≡ b
ok_injective p = cc

traverse-cons :
    {A B : Type 0} (f : A → Result B) (x : A) (xs : List A) (ys : List B)
    → traverse f (x ∷ xs) ≡ ok ys
    → (y : B) × (ys' : List B) × (f x ≡ ok y) × (ys ≡ y ∷ ys')
traverse-cons f x xs ys h =
    let (y, e, h1) = >>=-eq-ok (f x) _ h in
    let (ys', e', h2) = >>=-eq-ok (traverse f xs) _ h1 in (y, ys', e, ground arith)

-- A built volume has the altitudes beside the polygon, and no "volume" around them.
flat-unreadable :
    (g : Geometry) (geometry lower upper start stop : Json)
    → polygon_altitude g (
        obj (
          field "outline_polygon" geometry (
            field "altitude_lower" lower (
              field "altitude_upper" upper
                (field "time_start" start (field "time_end" stop end))))))
      ≡ raise key_error
unfolding polygon_altitude cast_to_volume4d
flat-unreadable g geometry lower upper start stop = refl

build_volume-unreadable :
    (start stop : String) (feature v : Json) (g : Geometry)
    → build_volume start stop feature ≡ ok v
    → polygon_altitude g v ≡ raise key_error
build_volume-unreadable start stop feature v g h =
    let (props, e1, h1) = >>=-eq-ok (get_or "properties" (obj end) feature) _ h in
    let (geometry, e2, h2) = >>=-eq-ok (get_or "geometry" Json.null feature) _ h1 in
    let (lower, e3, h3) = >>=-eq-ok (get_or "min_altitude" Json.null props) _ h2 in
    let (upper, e4, h4) = >>=-eq-ok (get_or "max_altitude" Json.null props) _ h3 in
    ground (arith, flat-unreadable g geometry lower upper (str start) (str stop))

-- The volumes of a created intent cannot be checked against any position.
check_position-unreadable :
    (g : Geometry) (fences : List GeoFence) (v : Json) (vs : List Json) (location : ℤ × ℤ)
    (altitude : ℤ)
    → polygon_altitude g v ≡ raise key_error
    → check_position g fences (arr (array (v ∷ vs))) location altitude ≡ raise key_error
unfolding check_position
check_position-unreadable g fences v vs location altitude h = ground arith

-- A value that passes the test of the geometry has a first element.
nonempty :
    (v : Json) (text : String) (rest : List Json → Result (Option String))
    → (if not (truthy v) then ok (some text) else (elements v >>= rest)) ≡ ok none
    → (f : Json) × (fs : List Json) × (elements v ≡ ok (f ∷ fs))
nonempty (arr nil) text rest h = cc
nonempty (arr (cons x xs)) text rest h = (x, to_list xs, refl)
nonempty (obj end) text rest h = cc
nonempty (obj (field k x fs)) text rest h = (str k, keys fs, refl)
nonempty (str String.[]) text rest h = cc
nonempty (str (String.◌∷◌ c s)) text rest h = (str (String.◌∷◌ c String.[]), characters s, refl)
nonempty Json.null text rest h = cc
nonempty (Json.bool true) text rest h = cc
nonempty (Json.bool false) text rest h = cc
nonempty (Json.num (pos ℕ.zero)) text rest h = cc
nonempty (Json.num (pos (ℕ.suc n))) text rest h = cc
nonempty (Json.num (negsuc n)) text rest h = cc

-- A geometry that passes has a feature.
validate_geojson-features :
    (valid : Json → Result Bool) (fc : Json)
    → validate_geojson valid fc ≡ ok none
    → (features : Json) × (f : Json) × (fs : List Json) × (get_or "features" (arr nil) fc
        ≡ ok features)
      × (elements features ≡ ok (f ∷ fs))
unfolding validate_geojson
validate_geojson-features valid fc h =
    let (features, e, h1) = >>=-eq-ok (get_or "features" (arr nil) fc) _ h in
    let (f, fs, e1) = nonempty features _ _ h1 in (features, f, fs, e, e1)

intent_of_features-volumes :
    (ext : Externals) (r : Request) (f intent : Json) (fs : List Json) (bounds : List ℤ)
    → intent_of_features ext r (f ∷ fs) ≡ ok (intent, bounds)
    → (v : Json) × (vs : List Json) × (build_volume r.start_datetime r.end_datetime f ≡ ok v)
      × (intent ≡ accepted (v ∷ vs))
unfolding intent_of_features
intent_of_features-volumes ext r f intent fs bounds h =
    let (geometries, e, h1) = >>=-eq-ok (traverse (item "geometry") (f ∷ fs)) _ h in
    let (b, e1, h2) = >>=-eq-ok (ext.union_bounds geometries) _ h1 in
    let (volumes, e2, h3) =
      >>=-eq-ok (traverse (build_volume r.start_datetime r.end_datetime) (f ∷ fs)) _ h2 in
    let (v, vs, e3, e4) =
      traverse-cons (build_volume r.start_datetime r.end_datetime) f fs volumes e2 in
    (v, vs, e3, ap (λ p. p.0) (ok_injective (sym h3)) ∙ ap accepted e4)

-- The stored intent of a row whose geometry has passed: its volumes cannot be read.
new_declaration-volumes :
    (settings : Settings) (ext : Externals) (id : ℕ) (r : Request) (d : Declaration)
    → validate_geojson ext.shape_is_valid r.flight_declaration_geo_json ≡ ok none
    → new_declaration settings ext id r ≡ ok d
    → (f v : Json) × (vs : List Json) × (build_volume r.start_datetime r.end_datetime f ≡ ok v)
      × (d.operational_intent ≡ some (accepted (v ∷ vs)))
unfolding new_declaration build_partial_operational_intent
new_declaration-volumes settings ext id r d drawn h =
    let (features, f, fs, e, e1) =
      validate_geojson-features ext.shape_is_valid r.flight_declaration_geo_json drawn in
    let ((intent, bounds), e2, h1) = >>=-eq-ok (build_partial_operational_intent ext r) _ h in
    let (aircraft, e3, h2) = >>=-eq-ok (or_raise r.aircraft_id key_error) _ h1 in
    let (start, e4, h3) = >>=-eq-ok (ext.arrow_get r.start_datetime) _ h2 in
    let (stop, e5, h4) = >>=-eq-ok (ext.arrow_get r.end_datetime) _ h3 in
    let (v, vs, e6, e7) = intent_of_features-volumes ext r f intent fs bounds (ground arith) in
    (f, v, vs, e6, sym (ap (λ x. x.operational_intent) (ok_injective h4)) ∙ ap some e7)

-- The telemetry check of a live operation whose row was made from a GeoJSON request, alone or in bulk,
-- raises KeyError, for every geometry, position and set of fences: the state is activated,
-- nonconforming or contingent, the aircraft is its own and the time is within the operation.
pub created-unreadable :
    (settings : Settings) (ext : Externals) (id : ℕ) (r : Request) (d : Declaration)
    → validate_geojson ext.shape_is_valid r.flight_declaration_geo_json ≡ ok none
    → new_declaration settings ext id r ≡ ok d
    → (g : Geometry) (now state : ℕ) (db : Db) (location : ℤ × ℤ) (altitude : ℤ)
    → elem state (2 ∷ 3 ∷ 4 ∷ []) ≡ true
    → is_time_between d.start_datetime d.end_datetime now ≡ true
    → check_declaration g now db d.aircraft_id location altitude (record d { state = state })
      ≡ raise key_error
unfolding check_declaration
created-unreadable settings ext id r d drawn h g now state db location altitude live timely =
    let (f, v, vs, e, e1) = new_declaration-volumes settings ext id r d drawn h in
    let unreadable = build_volume-unreadable r.start_datetime r.end_datetime f v g e in
    let own = (eq_iff d.aircraft_id d.aircraft_id).1 refl in
    ground (
      arith,
      check_position-unreadable g (select (λ (x : GeoFence). x.status == 0) db.fences) v vs location
          altitude unreadable,
    )
