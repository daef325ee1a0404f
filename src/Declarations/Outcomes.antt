-- ===== src/Declarations/Outcomes.antt =====
-- The outcomes of a request to create one declaration, and of a bulk of them.
use flight_blender.Prelude.{
  ℕ, ◌≡◌, ◌⊎◌, inl, inr, none, some, String, [], ◌∷◌, ◌++◌, arith, find, Option-cases,
}
use flight_blender.Exceptions.{Exc, integrity_error, Result, ok, raise, Result-cases}
use flight_blender.Domain.{Settings}
use flight_blender.World.{Declaration, World}
use flight_blender.Repositories.Declarations.{has_id, create}
use flight_blender.Declarations.Requests.{Request, message, Response, Externals}
use flight_blender.Declarations.Validation.{validate_geojson, validate_dates}
use flight_blender.Declarations.Intents.{new_declaration}
use flight_blender.Declarations.Creation.{answer, create_flight_declaration}

abbrev pub added : Declaration → World → World
added d w = record w { db = record (w.db) { declarations = w.db.declarations ++ d ∷ [] } }

-- A request that passed every check, and the row that it gives.
pub record Passes (settings : Settings) (ext : Externals) (id : ℕ) (r : Request) (d : Declaration)
    : Type 0 where
  pub loaded : ext.load r ≡ none
  pub drawn : validate_geojson ext.shape_is_valid r.flight_declaration_geo_json ≡ ok none
  pub dated : validate_dates ext r.start_datetime r.end_datetime ≡ ok none
  pub row : new_declaration settings ext id r ≡ ok d

abbrev pub Outcome : Settings → Externals → ℕ → Request → World → Result Response × World → Type 0
Outcome settings ext id r w result =
    ((text : String) × (result ≡ (ok (message text, 400), w)))
    ⊎ (((e : Exc) × (result ≡ (raise e, w)))
        ⊎ ((d : Declaration) × Passes settings ext id r d
            × (find (has_id d.id) w.db.declarations ≡ none)
            × (result ≡ (ok (answer d), added d w))))

-- What is left once the checks have passed without an exception.
checked-Outcome :
    (settings : Settings) (ext : Externals) (id : ℕ) (r : Request) (w : World)
    → ext.load r ≡ none
    → validate_geojson ext.shape_is_valid r.flight_declaration_geo_json ≡ ok none
    → validate_dates ext r.start_datetime r.end_datetime ≡ ok none
    → Outcome settings ext id r w (create_flight_declaration settings ext id r w)
unfolding create_flight_declaration create
checked-Outcome settings ext id r w e e1 e2 =
    elim (Result-cases (new_declaration settings ext id r)) [
      | inr (x, e3) ↦ inr (inl (x, ground arith))
      | inl (d, e3) ↦ elim (Option-cases (find (has_id d.id) w.db.declarations)) [
        | inr (old, e4) ↦ inr (inl (integrity_error, ground arith))
        | inl e4 ↦
            inr (inr (d, record { loaded = e; drawn = e1; dated = e2; row = e3 }, e4, ground arith))
      ]
    ]

-- A request to create a declaration ends in one of three ways: it is refused with 400, or an exception
-- is raised, and in both cases nothing is written; or it has passed the schema, the geometry and the
-- dates, its id is free, and exactly its row is added and answered with 200.
pub create_flight_declaration-Outcome :
    (settings : Settings) (ext : Externals) (id : ℕ) (r : Request) (w : World)
    → Outcome settings ext id r w (create_flight_declaration settings ext id r w)
unfolding create_flight_declaration
create_flight_declaration-Outcome settings ext id r w = elim (Option-cases (ext.load r)) [
  | inr (text, e) ↦ inl (text, ground arith)
  | inl e ↦
      elim (Result-cases (validate_geojson ext.shape_is_valid r.flight_declaration_geo_json)) [
        | inr (x, e1) ↦ inr (inl (x, ground arith))
        | inl (some text, e1) ↦ inl (text, ground arith)
        | inl (none, e1) ↦
            elim (Result-cases (validate_dates ext r.start_datetime r.end_datetime)) [
              | inr (x, e2) ↦ inr (inl (x, ground arith))
              | inl (some text, e2) ↦ inl (text, ground arith)
              | inl (none, e2) ↦ checked-Outcome settings ext id r w e e1 e2
            ]
      ]
]
