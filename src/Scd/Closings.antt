-- ===== src/Scd/Closings.antt =====
-- When a flight plan is closed.
use flight_blender.Prelude.{
  ==_iff, [], ◌≢◌, ◌∷◌, ap, ◌∙◌, ◌++◌, ℕ, ◌≡◌, ◌==◌, ◌⊎◌, inl, inr, refl, arith, Option-cases,
  Bool-cases, none, some, String, find,
}
use mathlib.Core.Path.{subst}
use flight_blender.Exceptions.{Exc, Result, ok, raise, Result-cases, >>=-eq-ok}
use flight_blender.Json.{Json, item}
use flight_blender.World.{
  pure, delete_operational_intent as deletion_sent, Action, OpintReference, World, ◌>>=◌, lift,
}
use flight_blender.Repositories.Writes.{delete-known, delete-unknown}
use flight_blender.Repositories.Declarations.{has_id, delete}
use flight_blender.Scd.Dss.{
  Dss, Reply, DeleteOperationalIntentResponse, format_deletion, prepare_deletion, request_deletion,
  deleted,
}
use flight_blender.Scd.Closing.{
  close_reference, answer_deletion, CloseFlightPlanResponse,
  flight_planning_deletion_success_response, flight_planning_deletion_failure_response,
  delete_flight_plan, delete_operational_intent,
}

-- The DSS has accepted the deletion of a reference at a version: its answer is 200, with the two
-- entries that belong to it.
pub record IsDeleted (dss : Dss) (id : ℕ) (version : String) : Type 0 where
  pub reply : Reply
  pub body : Json
  pub subscribers : Json
  pub removed : Json
  pub answered : dss.delete id version ≡ ok reply
  pub status_ok : reply.status_code ≡ 200
  pub read : reply.json ≡ ok body
  pub with_subscribers : item "subscribers" body ≡ ok subscribers
  pub with_reference : item "operational_intent_reference" body ≡ ok removed

-- A declaration's reference is deleted in the DSS: there is one, the request can be made, and the
-- DSS accepts it.
pub record IsAccepted (dss : Dss) (id : ℕ) (w : World) : Type 0 where
  pub reference : OpintReference
  pub version : String
  pub stored : find (λ r. r.declaration_id == id) w.db.references ≡ some reference
  pub prepared : prepare_deletion dss reference.ovn ≡ ok version
  pub confirmed : IsDeleted dss reference.id version

-- A response with the status 200 comes just of the status 200 of the DSS.
format_deletion-cases :
    (status_code : ℕ) (body : Json) (response : DeleteOperationalIntentResponse)
    → format_deletion status_code body ≡ ok response
    → response.status ≡ 200
    → (status_code ≡ 200)
      × (subscribers : Json) × (removed : Json) × (item "subscribers" body ≡ ok subscribers)
      × (item "operational_intent_reference" body ≡ ok removed)
unfolding format_deletion
format_deletion-cases status_code body response h s = ground arith

-- What a response says.
request_deletion-accepted :
    (dss : Dss) (id : ℕ) (version : String) (response : DeleteOperationalIntentResponse)
    → request_deletion dss id version ≡ ok response
    → response.status ≡ 200
    → IsDeleted dss id version
unfolding request_deletion
request_deletion-accepted dss id version response h s =
    let (reply, e4, h4) = >>=-eq-ok (dss.delete id version) _ h in
    let (body, e5, h5) = >>=-eq-ok reply.json _ h4 in
    let (ok_status, subscribers, removed, e6, e7) =
      format_deletion-cases reply.status_code body response h5 s in
    record {
      reply = reply;
      body = body;
      subscribers = subscribers;
      removed = removed;
      answered = e4;
      status_ok = ok_status;
      read = e5;
      with_subscribers = e6;
      with_reference = e7;
    }

request_deletion-returns :
    (dss : Dss) (id : ℕ) (version : String)
    → IsDeleted dss id version
    → (response : DeleteOperationalIntentResponse) × (request_deletion dss id version ≡ ok response)
      × (response.status ≡ 200)
unfolding request_deletion format_deletion
request_deletion-returns dss id version d = (
  record { dss_response = deleted d.subscribers d.removed; status = 200 },
  rw (d.answered, d.read) rw (format_deletion, d.status_ok, d.with_subscribers, d.with_reference)
      refl,
  refl,
)

-- The world after the request has been sent
abbrev sent : OpintReference → World → World
sent reference w = record w { calls = w.calls ++ deletion_sent reference.id reference.ovn ∷ [] }

failure-not_success :
    ok flight_planning_deletion_failure_response ≢ ok flight_planning_deletion_success_response
failure-not_success h = cc

then_pure :
    {A B : Type 0} (m : Action A) {b : B} {w w' : World} {a : A}
    → m w ≡ (ok a, w')
    → (m >>= λ removed. pure b) w ≡ (ok b, w')
then_pure m e = ground arith

module _ (dss : Dss) (id : ℕ) (w : World) where
  delete_flight_plan-missing :
      find (λ r. r.declaration_id == id) w.db.references ≡ none
      → delete_flight_plan dss id w ≡ (ok flight_planning_deletion_failure_response, w)
  unfolding delete_flight_plan close_reference
  delete_flight_plan-missing e = ap (λ found. close_reference dss id found w) e

  module _ (reference : OpintReference)
      (stored : find (λ r. r.declaration_id == id) w.db.references ≡ some reference) where
    delete_flight_plan-stored :
        delete_flight_plan dss id w
        ≡ (delete_operational_intent dss reference.id reference.ovn >>= answer_deletion id) w
    unfolding delete_flight_plan close_reference
    delete_flight_plan-stored = ap (λ found. close_reference dss id found w) stored

    delete_flight_plan-unprepared :
        (x : Exc)
        → prepare_deletion dss reference.ovn ≡ raise x
        → delete_flight_plan dss id w ≡ (raise x, w)
    unfolding delete_operational_intent
    delete_flight_plan-unprepared x e = delete_flight_plan-stored ∙ rw (e) refl

    delete_flight_plan-sent :
        (version : String)
        → prepare_deletion dss reference.ovn ≡ ok version
        → delete_flight_plan dss id w
          ≡ (lift (request_deletion dss reference.id version) >>= answer_deletion id)
              (sent reference w)
    unfolding delete_operational_intent
    delete_flight_plan-sent version e = delete_flight_plan-stored ∙ rw (e) refl

  delete-sent :
      (reference : OpintReference)
      → (((delete id >>= λ removed. pure flight_planning_deletion_success_response)
            (sent reference w)).0
          ≡ ok flight_planning_deletion_success_response)
        × (((delete id >>= λ removed. pure flight_planning_deletion_success_response)
              (sent reference w)).1.db
            ≡ (delete id w).1.db)
  delete-sent reference = elim (Option-cases (find (has_id id) w.db.declarations)) [
    | inl f ↦
        rw
          (
            delete-unknown id w f,
            then_pure (delete id) {b = flight_planning_deletion_success_response}
                (delete-unknown id (sent reference w) f),
          )
          (refl, refl)
    | inr (d, f) ↦
        rw
          (
            delete-known id d w f,
            then_pure (delete id) {b = flight_planning_deletion_success_response}
                (delete-known id d (sent reference w) f),
          )
          (refl, refl)
  ]

  abbrev pub Closes : Result CloseFlightPlanResponse × World → Type 0
  Closes run =
      (IsAccepted dss id w
        × (run.0 ≡ ok flight_planning_deletion_success_response)
        × (run.1.db ≡ (delete id w).1.db))
      ⊎ ((¬ IsAccepted dss id w)
          × (run.0 ≢ ok flight_planning_deletion_success_response)
          × (run.1.db ≡ w.db))

  IsAccepted-prepared :
      (reference : OpintReference)
      → find (λ r. r.declaration_id == id) w.db.references ≡ some reference
      → (a : IsAccepted dss id w)
      → (prepare_deletion dss reference.ovn ≡ ok a.version) × IsDeleted dss reference.id a.version
  IsAccepted-prepared reference stored a =
      let same : a.reference ≡ reference = cc in
      subst (λ r. (prepare_deletion dss r.ovn ≡ ok a.version) × IsDeleted dss r.id a.version) same
        (a.prepared, a.confirmed)

  IsAccepted-request :
      (reference : OpintReference) (version : String)
      → find (λ r. r.declaration_id == id) w.db.references ≡ some reference
      → prepare_deletion dss reference.ovn ≡ ok version
      → IsAccepted dss id w
      → IsDeleted dss reference.id version
  IsAccepted-request reference version stored prepared a =
      let (p, confirmed) = IsAccepted-prepared reference stored a in
      let same : a.version ≡ version = cc in
      subst (λ v. IsDeleted dss reference.id v) same confirmed

  answered-Closes :
      (reference : OpintReference) (version : String) (response : DeleteOperationalIntentResponse)
      → find (λ r. r.declaration_id == id) w.db.references ≡ some reference
      → prepare_deletion dss reference.ovn ≡ ok version
      → request_deletion dss reference.id version ≡ ok response
      → Closes (answer_deletion id response (sent reference w))
  unfolding answer_deletion
  answered-Closes reference version response stored prepared requested =
      elim (Bool-cases (response.status == 200)) [
        | inl e ↦ rw e (
            inl (
              record {
                reference = reference;
                version = version;
                stored = stored;
                prepared = prepared;
                confirmed =
                    request_deletion-accepted dss reference.id version response requested
                      ((==_iff _ _).0 e);
              },
              (delete-sent reference).0,
              (delete-sent reference).1,
            ))
        | inr e ↦ rw e (
            inr (
              (λ a.
                  let (other, r, s) =
                    request_deletion-returns dss reference.id version
                      (IsAccepted-request reference version stored prepared a) in
                  ground arith),
              failure-not_success,
              refl,
            ))
      ]

  -- Closing a flight plan ends in one of two ways. Either the declaration's reference is stored and
  -- the DSS accepts its deletion, the answer is the success, and the tables are what deleting the
  -- declaration leaves. Or the DSS does not accept, the answer is not the success (it is the failure
  -- or an exception), and no table changes.
  pub delete_flight_plan-Closes : Closes (delete_flight_plan dss id w)
  delete_flight_plan-Closes =
      elim (Option-cases (find (λ r. r.declaration_id == id) w.db.references)) [
        | inl missing ↦
            rw (delete_flight_plan-missing missing)
              (inr ((λ a. ground (arith, a.stored)), failure-not_success, refl))
        | inr (reference, stored) ↦ elim (Result-cases (prepare_deletion dss reference.ovn)) [
          | inr (x, e) ↦ rw (delete_flight_plan-unprepared reference stored x e) (
              inr
                ((λ a. let p = (IsAccepted-prepared reference stored a).0 in cc), (λ h. cc), refl))
          | inl (version, prepared) ↦
              elim (Result-cases (request_deletion dss reference.id version)) [
                | inl (response, r) ↦
                    rw (delete_flight_plan-sent reference stored version prepared, r)
                      (answered-Closes reference version response stored prepared r)
                | inr (x, r) ↦
                    rw (delete_flight_plan-sent reference stored version prepared, r)
                      (inr (
                        (λ a.
                            let r' =
                              (request_deletion-returns dss reference.id version
                                (IsAccepted-request reference version stored prepared a)).1 in
                            cc),
                        (λ h. cc),
                        refl,
                      ))
              ]
        ]
      ]
