-- ===== src/Conformance/Fencing.antt =====
-- What a position is off a geofence by: the rings of a fence's GeoJSON, against the tests that
-- `FlightBlenderConformanceEngine` makes (flight_blender/services/conformance_svc.py).
use flight_blender.Prelude.{
  ℤ, ◌≡◌, refl, ◌⊎◌, inl, inr, Bool, true, false, List, [], ◌∷◌, arith, if◌then◌else◌, All,
}
use flight_blender.Exceptions.{Result, ok, raise, ◌>>=◌, traverse, >>=-eq-ok}
use flight_blender.Json.{Json, obj, arr, nil, end, null, loads, get_or, is_text, elements}
use flight_blender.World.{GeoFence}
use flight_blender.Conformance.Engine.{
  Geometry, first_hit, first_item, read_vertex, is_within_geofence, feature_breached,
  fence_breached,
}

first_hit_step :
    (r rest : Result Bool)
    → (r >>= λ hit. if hit then ok true else rest) ≡ ok false
    → (r ≡ ok false) × (rest ≡ ok false)
first_hit_step (ok true) rest h = cc
first_hit_step (ok false) rest h = (refl, h)
first_hit_step (raise e) rest h = cc

-- Where no test hits, each element has what a miss of its test means.
first_hit-All :
    {A : Type 0} (f : A → Result Bool) (P : A → Type 0) (xs : List A)
    → ((x : A) → f x ≡ ok false → P x)
    → first_hit f xs ≡ ok false
    → All P xs
first_hit-All f P [] means h = tt
first_hit-All f P (x ∷ xs) means h =
    let (miss, rest) = first_hit_step (f x) (first_hit f xs) h in
    (means x miss, first_hit-All f P xs means rest)

module _ (g : Geometry) (location : ℤ × ℤ) where
  -- A ring whose vertices, longitude and latitude, give a polygon that does not hold the position
  pub record IsOffRing (ring : Json) : Type 0 where
    pub vertices : List Json
    pub points : List (ℤ × ℤ)
    pub outline : g.Polygon
    pub listed : elements ring ≡ ok vertices
    pub read : traverse read_vertex vertices ≡ ok points
    pub built : g.polygon points ≡ ok outline
    pub off : g.within location outline ≡ false

  -- The outer ring of a polygon is its first one.
  abbrev pub IsOffPolygon : Json → Type 0
  IsOffPolygon rings = (ring : Json) × (first_item rings ≡ ok ring) × IsOffRing ring

  -- A polygon that the position is off, a multipolygon each of whose polygons it is off, or a geometry
  -- of another type
  abbrev pub IsOffGeometry : Json → Json → Type 0
  IsOffGeometry kind coordinates =
      ((is_text "Polygon" kind ≡ true) × IsOffPolygon coordinates)
      ⊎ (((is_text "MultiPolygon" kind ≡ true)
            × ((polygons : List Json) × (elements coordinates ≡ ok polygons)
                × All IsOffPolygon polygons))
          ⊎ ((is_text "Polygon" kind ≡ false) × (is_text "MultiPolygon" kind ≡ false)))

  pub record IsOffFeature (feature : Json) : Type 0 where
    pub geometry : Json
    pub kind : Json
    pub coordinates : Json
    pub has_geometry : get_or "geometry" (obj end) feature ≡ ok geometry
    pub has_type : get_or "type" null geometry ≡ ok kind
    pub has_coordinates : get_or "coordinates" (arr nil) geometry ≡ ok coordinates
    pub off : IsOffGeometry kind coordinates

  pub record IsOffFence (fence : GeoFence) : Type 0 where
    pub geojson : Json
    pub collection : Json
    pub features : List Json
    pub decoded : loads fence.raw_geo_fence ≡ ok geojson
    pub has_features : get_or "features" (arr nil) geojson ≡ ok collection
    pub listed : elements collection ≡ ok features
    pub off : All IsOffFeature features

  is_within-IsOffRing :
      (ring : Json) → is_within_geofence g location ring ≡ ok false → IsOffRing ring
  unfolding is_within_geofence
  is_within-IsOffRing ring h =
      let (vertices, e1, h1) = >>=-eq-ok (elements ring) _ h in
      let (points, e2, h2) = >>=-eq-ok (traverse read_vertex vertices) _ h1 in
      let (outline, e3, h3) = >>=-eq-ok (g.polygon points) _ h2 in
      record {
        vertices = vertices;
        points = points;
        outline = outline;
        listed = e1;
        read = e2;
        built = e3;
        off = ground arith;
      }

  missed-IsOffPolygon :
      (rings : Json)
      → (first_item rings >>= λ ring. is_within_geofence g location ring) ≡ ok false
      → IsOffPolygon rings
  missed-IsOffPolygon rings h =
      let (ring, e, h1) = >>=-eq-ok (first_item rings) _ h in (ring, e, is_within-IsOffRing ring h1)

  feature_breached-IsOffFeature :
      (feature : Json) → feature_breached g location feature ≡ ok false → IsOffFeature feature
  unfolding feature_breached
  feature_breached-IsOffFeature feature h =
      let (geometry, e1, h1) = >>=-eq-ok (get_or "geometry" (obj end) feature) _ h in
      let (kind, e2, h2) = >>=-eq-ok (get_or "type" null geometry) _ h1 in
      let (coordinates, e3, h3) = >>=-eq-ok (get_or "coordinates" (arr nil) geometry) _ h2 in
      record {
        geometry = geometry;
        kind = kind;
        coordinates = coordinates;
        has_geometry = e1;
        has_type = e2;
        has_coordinates = e3;
        off = split (is_text "Polygon" kind) (is_text "MultiPolygon" kind) coordinates h3;
      }
    where
      split :
          (polygon multi : Bool) (coordinates : Json)
          → (if polygon
              then (first_item coordinates >>= λ ring. is_within_geofence g location ring)
              else if multi
              then (elements coordinates >>= λ polygons.
                  first_hit
                    (λ p. first_item p >>= λ ring. is_within_geofence g location ring)
                    polygons)
              else ok false)
            ≡ ok false
          → ((polygon ≡ true) × IsOffPolygon coordinates)
            ⊎ (((multi ≡ true)
                  × ((polygons : List Json) × (elements coordinates ≡ ok polygons)
                      × All IsOffPolygon polygons))
                ⊎ ((polygon ≡ false) × (multi ≡ false)))
      split true multi coordinates k = inl (refl, missed-IsOffPolygon coordinates k)
      split false true coordinates k =
          let (polygons, e, k1) = >>=-eq-ok (elements coordinates) _ k in
          inr (
            inl (refl, (polygons, e, first_hit-All _ IsOffPolygon polygons missed-IsOffPolygon k1)))
      split false false coordinates k = inr (inr (refl, refl))

  -- A fence that is not breached is one that the position is off.
  pub fence_breached-IsOffFence :
      (fence : GeoFence) → fence_breached g location fence ≡ ok false → IsOffFence fence
  unfolding fence_breached
  fence_breached-IsOffFence fence h =
      let (geojson, e1, h1) = >>=-eq-ok (loads fence.raw_geo_fence) _ h in
      let (collection, e2, h2) = >>=-eq-ok (get_or "features" (arr nil) geojson) _ h1 in
      let (features, e3, h3) = >>=-eq-ok (elements collection) _ h2 in
      record {
        geojson = geojson;
        collection = collection;
        features = features;
        decoded = e1;
        has_features = e2;
        listed = e3;
        off =
            first_hit-All (feature_breached g location) IsOffFeature features
              feature_breached-IsOffFeature h3;
      }

  pub fences-All :
      (fences : List GeoFence)
      → first_hit (fence_breached g location) fences ≡ ok false
      → All IsOffFence fences
  fences-All fences h =
      first_hit-All (fence_breached g location) IsOffFence fences fence_breached-IsOffFence h
