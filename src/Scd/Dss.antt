-- ===== src/Scd/Dss.antt =====
-- What `SCDOperations.delete_operational_intent` (flight_blender/clients/dss_scd_client.py) makes of
-- the DSS's answer. The token
-- service and the DSS are parameters: what they answer, or the exception that the request raises.
use flight_blender.Prelude.{ℕ, ◌==◌, Option, String, if◌then◌else◌}
use flight_blender.Exceptions.{type_error, Result, ok, or_raise, ◌>>=◌}
use flight_blender.Json.{Json, item}

-- An answer of the DSS: its status, and its body where that is JSON.
pub record Reply : Type 0 where
  pub status_code : ℕ
  pub json : Result Json

-- `get_auth_token()`, and the DELETE request for a reference and a version.
pub record Dss : Type 0 where
  pub get_auth_token : Result Json
  pub delete : ℕ → String → Result Reply

-- `DeleteOperationalIntentResponseSuccess`, or the body as it came
pub data DssResponse : Type 0 where
  deleted : Json → Json → DssResponse
  refused : Json → DssResponse

pub record DeleteOperationalIntentResponse : Type 0 where
  pub dss_response : DssResponse
  pub status : ℕ

-- The response for a status of the DSS and the body. Any other status counts as 500.
unfoldable pub format_deletion : ℕ → Json → Result DeleteOperationalIntentResponse
format_deletion status_code body =
    if status_code == 200
    then (item "subscribers" body >>= λ subscribers.
        item "operational_intent_reference" body >>= λ reference.
        ok (record { dss_response = deleted subscribers reference; status = 200 }))
    else if status_code == 404
    then ok (record { dss_response = refused body; status = 404 })
    else if status_code == 409
    then ok (record { dss_response = refused body; status = 409 })
    else if status_code == 412
    then ok (record { dss_response = refused body; status = 412 })
    else ok (record { dss_response = refused body; status = 500 })

-- What the request is made of: the address is the id and the version put together, so that a
-- reference without a version is a `TypeError`, and the header holds the token.
unfoldable pub prepare_deletion : Dss → Option String → Result String
prepare_deletion dss ovn = dss.get_auth_token >>= λ auth_token.
    or_raise ovn type_error >>= λ version. item "access_token" auth_token >>= λ bearer. ok version

unfoldable pub request_deletion : Dss → ℕ → String → Result DeleteOperationalIntentResponse
unfolding format_deletion
request_deletion dss id version =
    dss.delete id version >>= λ reply. reply.json >>= λ body. format_deletion reply.status_code body
