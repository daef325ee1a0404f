-- ===== src/Conformance/Soundness.antt =====
-- What it means that a flight is found conformant by its telemetry (`FlightBlenderConformanceEngine`).
use mathlib.Core.List.{Memᴰ}
use flight_blender.Prelude.{
  ℕ, ℤ, ◌≤◌, ◌<◌, All, leb_ℤ, ◌≡◌, ◌∙◌, refl, ap, ◌⊎◌, inl, inr, Bool, true, false, not, ◌||◌,
  Option, none, some, String, List, [], ◌∷◌, arith, eq_iff, ◌==◌, any, find, select, is_some,
  if◌then◌else◌, Bool-cases,
}
use flight_blender.Exceptions.{Result, ok, raise, ◌>>=◌, traverse, >>=-eq-ok}
use flight_blender.Domain.{Settings}
use flight_blender.Json.{Json, cons, nil, arr, elements, item, loads, number}
use flight_blender.World.{Declaration, OpintReference, GeoFence, Db}
use flight_blender.Conformance.Extents.{Extent, polygon_altitude-Extent, traverse-Memᴰ}
use flight_blender.Conformance.Fencing.{IsOffFence, fences-All}
use flight_blender.Conformance.Engine.{
  Geometry, PolygonAltitude, polygon_altitude, altitude_conformant, check_position,
  check_declaration, check_found, is_time_between, is_operation_conformant_via_telemetry,
}

any-Memᴰ :
    {A : Type 0} (p : A → Bool) (xs : List A) → any p xs ≡ true → (x : A) × Memᴰ x xs × (p x ≡ true)
any-Memᴰ p [] h = cc
any-Memᴰ p (x ∷ xs) h = elim (Bool-cases (p x)) [
  | inl e ↦ (x, Memᴰ.head refl, e)
  | inr e ↦ let (y, m, f) = any-Memᴰ p xs (ground arith) in (y, Memᴰ.tail m, f)
]

any-traverse :
    {A : Type 0} (f : A → Result Bool) (xs : List A) (bs : List Bool)
    → traverse f xs ≡ ok bs
    → any (λ b. b) bs ≡ true
    → (x : A) × Memᴰ x xs × (f x ≡ ok true)
any-traverse f [] bs h k = absurd (ground arith)
any-traverse f (x ∷ xs) bs h k =
    let (b, e, h1) = >>=-eq-ok (f x) _ h in
    let (bs', e', h2) = >>=-eq-ok (traverse f xs) _ h1 in
    elim (Bool-cases b) [
      | inl hit ↦ (x, Memᴰ.head refl, e ∙ ap ok hit)
      | inr miss ↦ let (y, m, p) = any-traverse f xs bs' e' (ground arith) in (y, Memᴰ.tail m, p)
    ]

-- An altitude between two bounds, which are numbers.
pub record IsBetween (altitude : ℤ) (altitude_lower altitude_upper : Json) : Type 0 where
  pub lower : ℤ
  pub upper : ℤ
  pub has_lower : number altitude_lower ≡ ok lower
  pub has_upper : number altitude_upper ≡ ok upper
  pub above : leb_ℤ lower altitude ≡ true
  pub below : leb_ℤ altitude upper ≡ true

altitude_conformant-IsBetween :
    (g : Geometry) (altitude : ℤ) (p : PolygonAltitude g)
    → altitude_conformant g altitude p ≡ ok true
    → IsBetween altitude p.altitude_lower p.altitude_upper
unfolding altitude_conformant
altitude_conformant-IsBetween g altitude p h =
    let (lower, e1, h1) = >>=-eq-ok (number p.altitude_lower) _ h in
    elim (Bool-cases (leb_ℤ lower altitude)) [
      | inl above ↦
          let (upper, e2, h2) = >>=-eq-ok (number p.altitude_upper) _ (upper_read lower above h1) in
          record {
            lower = lower;
            upper = upper;
            has_lower = e1;
            has_upper = e2;
            above = above;
            below = ground arith;
          }
      | inr below ↦ absurd (ground arith)
    ]
  where
    upper_read :
        (lower : ℤ)
        → leb_ℤ lower altitude ≡ true
        → (if leb_ℤ lower altitude
            then (number p.altitude_upper >>= λ upper. ok (leb_ℤ altitude upper))
            else ok false)
          ≡ ok true
        → (number p.altitude_upper >>= λ upper. ok (leb_ℤ altitude upper)) ≡ ok true
    upper_read lower e h = rw e at h

is_time_between-times :
    (begin_time end_time check_time : ℕ)
    → is_time_between begin_time end_time check_time ≡ true
    → ((begin_time < end_time) × (begin_time ≤ check_time) × (check_time ≤ end_time))
      ⊎ ((end_time ≤ begin_time) × ((begin_time ≤ check_time) ⊎ (check_time ≤ end_time)))
unfolding is_time_between
is_time_between-times begin_time end_time check_time h = ground arith

-- What a position needs to be conformant: a volume whose polygon it lies in, a volume whose altitudes
-- it lies between, and that it is off every geofence.
pub record IsClear (g : Geometry) (geofences : List GeoFence) (volumes : Json) (location : ℤ × ℤ)
    (altitude : ℤ) : Type 0 where
  pub vs : List Json
  pub listed : elements volumes ≡ ok vs
  pub inside : (v : Json) × Memᴰ v vs × ((x : Extent g v) × (g.within location x.outline ≡ true))
  pub between :
      (v : Json) × Memᴰ v vs
      × ((x : Extent g v) × IsBetween altitude x.altitude_lower x.altitude_upper)
  pub unfenced : All (IsOffFence g location) geofences

check_position_end :
    (a b : Bool) (r : Result Bool)
    → ◌≡◌ {A = Result ℕ}
        (if not a then ok 8 else if not b then ok 7 else (r >>= λ hit. ok (if hit then 9 else 100)))
        (ok 100)
    → (a ≡ true) × (b ≡ true) × (r ≡ ok false)
check_position_end true true (ok true) h = absurd (ground arith)
check_position_end true true (ok false) h = (refl, refl, refl)
check_position_end true true (raise e) h = cc
check_position_end true false r h = absurd (ground arith)
check_position_end false b r h = absurd (ground arith)

module _ (g : Geometry) where
  check_position-IsClear :
      (geofences : List GeoFence) (volumes : Json) (location : ℤ × ℤ) (altitude : ℤ)
      → check_position g geofences volumes location altitude ≡ ok 100
      → IsClear g geofences volumes location altitude
  unfolding check_position
  check_position-IsClear geofences volumes location altitude h =
      let (vs, e1, h1) = >>=-eq-ok (elements volumes) _ h in
      let (ps, e2, h2) = >>=-eq-ok (traverse (polygon_altitude g) vs) _ h1 in
      let (bs, e3, h3) = >>=-eq-ok (traverse (altitude_conformant g altitude) ps) _ h2 in
      let (some_altitude, some_polygon, clear) = check_position_end (any (λ b. b) bs) _ _ h3 in
      let (p, m, held) =
        any-Memᴰ (λ (p : PolygonAltitude g). g.within location p.outline) ps some_polygon in
      let (v, n, e) = traverse-Memᴰ (polygon_altitude g) vs ps p e2 m in
      let (x, outline, _, _) = polygon_altitude-Extent g v p e in
      let (p', m', fits) = any-traverse (altitude_conformant g altitude) ps bs e3 some_altitude in
      let (v', n', e') = traverse-Memᴰ (polygon_altitude g) vs ps p' e2 m' in
      let (x', _, lower, upper) = polygon_altitude-Extent g v' p' e' in
      let bounds = altitude_conformant-IsBetween g altitude p' fits in
      record {
        vs = vs;
        listed = e1;
        inside = (v, n, (x, ap (g.within location) outline ∙ held));
        between = (
          v',
          n',
          (
            x',
            record {
              lower = bounds.lower;
              upper = bounds.upper;
              has_lower = ap number lower ∙ bounds.has_lower;
              has_upper = ap number upper ∙ bounds.has_upper;
              above = bounds.above;
              below = bounds.below;
            },
          ),
        );
        unfenced = fences-All g location geofences clear;
      }

  declaration_end :
      (a b c e : Bool) (r : Result ℕ)
      → (if a then ok 3 else if b then ok 4 else if c then ok 5 else if e then ok 6 else r) ≡ ok 100
      → (a ≡ false) × (b ≡ false) × (c ≡ false) × (e ≡ false) × (r ≡ ok 100)
  declaration_end a b c e r h = ground arith

  module _ (now : ℕ) (db : Db) (aircraft_id : String) (location : ℤ × ℤ) (altitude : ℤ) where
    -- What the checks of a declaration ask for.
    pub record IsConformant (d : Declaration) : Type 0 where
      pub details : Json
      pub volumes : Json
      pub same_aircraft : d.aircraft_id ≡ aircraft_id
      pub state_live : (d.state ≡ 2) ⊎ ((d.state ≡ 3) ⊎ (d.state ≡ 4))
      pub in_time :
          ((d.start_datetime < d.end_datetime) × (d.start_datetime ≤ now) × (now ≤ d.end_datetime))
          ⊎ ((d.end_datetime ≤ d.start_datetime)
              × ((d.start_datetime ≤ now) ⊎ (now ≤ d.end_datetime)))
      pub decoded : loads d.operational_intent ≡ ok details
      pub declared : item "volumes" details ≡ ok volumes
      pub clear : IsClear g (select (λ f. f.status == 0) db.fences) volumes location altitude

    check_declaration-IsConformant :
        (d : Declaration)
        → check_declaration g now db aircraft_id location altitude d ≡ ok 100
        → IsConformant d
    unfolding check_declaration
    check_declaration-IsConformant d h =
        let (details, e1, h1) = >>=-eq-ok (loads d.operational_intent) _ h in
        let (same, valid, live, time, h2) = declaration_end _ _ _ _ _ h1 in
        let (volumes, e2, h3) = >>=-eq-ok (item "volumes" details) _ h2 in
        record {
          details = details;
          volumes = volumes;
          same_aircraft = (eq_iff _ _).0 (ground arith);
          state_live = ground arith;
          in_time = is_time_between-times d.start_datetime d.end_datetime now (ground arith);
          decoded = e1;
          declared = e2;
          clear = check_position-IsClear _ volumes location altitude h3;
        }

    -- A flight is found conformant by its telemetry only where the declaration exists and, with
    -- the network enabled, its DSS reference; the aircraft is the declared one; the state is
    -- activated, nonconforming or contingent; now is from the operation's start to its end or,
    -- where the end is not after the start, not before the start or not after the end; the
    -- position lies in the polygon of all vertices but the last of some declared volume, and
    -- from the lower to the upper altitude of some declared volume; and of each geofence of
    -- status 0, every feature that is a polygon or a multipolygon has outer rings whose
    -- polygons do not hold the position.
    pub telemetry-IsConformant :
        (settings : Settings) (id : ℕ)
        → is_operation_conformant_via_telemetry g now db aircraft_id location altitude settings id
          ≡ ok 100
        → (d : Declaration) × (find (λ (e : Declaration). e.id == id) db.declarations ≡ some d)
          × ((settings.ussp_network_enabled ≡ false)
              ⊎ (is_some (find (λ (r : OpintReference). r.declaration_id == id) db.references)
                  ≡ true))
          × IsConformant d
    unfolding is_operation_conformant_via_telemetry
    telemetry-IsConformant settings id h =
        split (find (λ (e : Declaration). e.id == id) db.declarations) refl h
      where
        split :
            (found : Option Declaration)
            → find (λ (e : Declaration). e.id == id) db.declarations ≡ found
            → check_found g now db aircraft_id location altitude found (
                not settings.ussp_network_enabled
                || is_some (find (λ (r : OpintReference). r.declaration_id == id) db.references))
              ≡ ok 100
            → (d : Declaration) × (find (λ (e : Declaration). e.id == id) db.declarations ≡ some d)
              × ((settings.ussp_network_enabled ≡ false)
                  ⊎ (is_some (find (λ (r : OpintReference). r.declaration_id == id) db.references)
                      ≡ true))
              × IsConformant d
        split none e k = absurd (ground arith)
        split (some d) e k = (d, e, ground arith, check_declaration-IsConformant d (ground arith))

  -- The two tests of a position are made apart, each over all volumes: with no geofence, a position
  -- that one volume holds only by its polygon and another only by its altitudes is found conformant.
  pub volumes_apart :
      (v v' : Json) (p p' : PolygonAltitude g) (location : ℤ × ℤ) (altitude : ℤ)
      → polygon_altitude g v ≡ ok p
      → polygon_altitude g v' ≡ ok p'
      → g.within location p.outline ≡ true
      → altitude_conformant g altitude p ≡ ok false
      → g.within location p'.outline ≡ false
      → altitude_conformant g altitude p' ≡ ok true
      → check_position g [] (arr (cons v (cons v' nil))) location altitude ≡ ok 100
  unfolding check_position
  volumes_apart v v' p p' location altitude e e' i a i' a' = rw (e, e', a, a') (ground arith)
