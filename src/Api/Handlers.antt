-- ===== src/Api/Handlers.antt =====
-- The handlers of src/sprinter/api.py behind `require_scope`, and that of the events of Teams. A body is
-- a JSON value; the checks of its schema and of the header raise RequestValidationError, which is
-- answered like ValueError.
pub mod Refusals
use Prim.Native.String.{◌++◌ as ◌⧺◌}
use sprinter_oss.Prelude.{
  ℕ, String, Bool, true, false, not, Option, none, some, List, [], ◌∷◌, if◌then◌else◌, length,
}
use sprinter_oss.Json.{
  Value, Elements, Fields, null, bool, num, str, list, dict, no_fields, field, no_items, element,
  number, get,
}
use sprinter_oss.Errors.{Exception, Result, ok, err, ◌>>=◌, value_error, teams_authentication_error}
use sprinter_oss.Config.{Settings}
use sprinter_oss.Models.{Draws, Db, Job, TeamsInstallation}
use sprinter_oss.Jobs.{get_job}
use sprinter_oss.Installations.{installations, set_installation_enabled}
use sprinter_oss.Auth.{Principal, Request, AuditCall}
use sprinter_oss.Engine.{ReviewJobRequest, submit_review}
use sprinter_oss.Schemas.{invalid}
use sprinter_oss.Schemas.Requests.{
  is_sized, review_job_request, SplunkSearchRequest, splunk_search_request, AdxQueryRequest,
  adx_query_request, ConfluenceSearchRequest, confluence_search_request,
}
use sprinter_oss.Clients.Splunk as SplunkClient
use sprinter_oss.Clients.Adx as AdxClient
use sprinter_oss.Clients.Confluence as ConfluenceClient
use sprinter_oss.Teams.{Activity, Lifecycle, ignored, deactivated, installed, handle_lifecycle}
use sprinter_oss.Teams.Tokens.{validate_activity}
use sprinter_oss.Api.{Response, detail, answer, Server, Context, record_call, guarded}
use sprinter_oss.Api.Views.{status_text, job_view, installation_view, installation_views}

-- A body that is an object.
unfoldable pub object_of : Value → Result Fields
object_of (dict fs) = ok fs
object_of null = invalid
object_of (bool b) = invalid
object_of (num z t) = invalid
object_of (str s) = invalid
object_of (list xs) = invalid

-- The header `Idempotency-Key`.
unfoldable pub checked_key : Option String → Result String
unfolding is_sized
checked_key none = invalid
checked_key (some key) = if is_sized 8 128 key then ok key else invalid

-- What `create_review_job` is called with.
unfoldable pub checked_submission :
    (Value → Option ℕ) → Value → Option String → Result (ReviewJobRequest × String)
unfolding object_of checked_key review_job_request
checked_submission as_int body header = do
  fs ← object_of body
  request ← review_job_request as_int fs
  key ← checked_key header
  ok (request, key)

-- The answer for a job.
unfoldable pub accepted : Job × Bool → Response
unfolding status_text
accepted (job, created) = record {
  status = 202;
  body = dict (
      field "job_id" (str job.id) (
        field "status" (str (status_text job.status)) (
          field "created" (bool created)
            (field "url" (str ("/api/v1/jobs/" ⧺ job.id)) no_fields))));
}

unfoldable pub accepted_result : Result (Job × Bool) × Db → Result Response × Db
unfolding accepted
accepted_result (ok found, db) = (ok (accepted found), db)
accepted_result (err e, db) = (err e, db)

unfoldable pub submitted :
    Context
    → Settings
    → Result (ReviewJobRequest × String)
    → Db
    → Principal
    → Db
    → Result Response × Db
unfolding submit_review accepted_result
submitted context settings (err e) seen principal db = (err e, db)
submitted context settings (ok (request, key)) seen principal db =
    accepted_result
      (submit_review context.services settings request key principal.name context.draws seen db)

-- `create_review_job`; `seen` is the database as its first select finds it.
unfoldable pub create_review_job :
    Context
    → Settings
    → (Value → Option ℕ)
    → Request
    → Value
    → Option String
    → Db
    → Server
    → Response × Server
unfolding checked_submission submitted guarded
create_review_job context settings as_int request body header seen server =
    guarded context settings "reviews:write" request
      (submitted context settings (checked_submission as_int body header) seen) server

unfoldable pub shown_job : (ℕ → String) → String → Principal → Db → Result Response × Db
unfolding get_job job_view detail
shown_job iso job_id principal db = elim (get_job job_id db) [
  | none ↦ (ok (detail 404 "job not found"), db)
  | some job ↦ (ok (record { status = 200; body = job_view iso job db }), db)
]

-- The handler `get_job`.
unfoldable pub show_job :
    Context → Settings → (ℕ → String) → Request → String → Server → Response × Server
unfolding guarded shown_job
show_job context settings iso request job_id server =
    guarded context settings "jobs:read" request (shown_job iso job_id) server

-- `list_installations`.
unfoldable pub list_installations :
    Context → Settings → (ℕ → String) → Request → Server → Response × Server
unfolding guarded installation_views installations
list_installations context settings iso request server =
    guarded context settings "teams:admin" request
      (λ principal db. (
        ok (record { status = 200; body = list (installation_views iso (installations false db)) }),
        db,
      ))
      server

unfoldable pub updated_installation :
    Context
    → Settings
    → (ℕ → String)
    → String
    → Bool
    → Principal
    → Option TeamsInstallation × Db
    → Result Response × Db
unfolding detail installation_view record_call
updated_installation context settings iso id enabled principal (none, db) =
    (ok (detail 409 "installation not found or inactive"), db)
updated_installation context settings iso id enabled principal (some item, db) = (
  ok (record { status = 200; body = installation_view iso item }),
  record_call context settings (context.draws 1) (context.draws 2)
      (record {
        event_type = "teams.installation_updated";
        actor = principal.name;
        payload =
            dict (field "installation_id" (str id) (field "enabled" (bool enabled) no_fields));
      })
      db,
)

-- `update_installation`, for a valid body.
unfoldable pub update_installation :
    Context → Settings → (ℕ → String) → Request → String → Bool → Server → Response × Server
unfolding guarded set_installation_enabled updated_installation
update_installation context settings iso request id enabled server =
    guarded context settings "teams:admin" request
      (λ principal db.
        updated_installation context settings iso id enabled principal
          (set_installation_enabled id enabled (context.draws 0) db))
      server

-- What the handler of an event returns.
unfoldable pub lifecycle_body : Lifecycle → Value
lifecycle_body ignored = dict (field "accepted" (bool true) (field "ignored" (bool true) no_fields))
lifecycle_body (deactivated changed) =
    dict (field "accepted" (bool true) (field "deactivated" (bool changed) no_fields))
lifecycle_body (installed id enabled) = dict (
    field "accepted" (bool true)
      (field "installation_id" (str id) (field "enabled" (bool enabled) no_fields)))

-- `except TeamsAuthenticationError`, and the other exceptions, which their handlers answer.
unfoldable pub event_response : Context → Settings → Result Lifecycle × Db → Response × Db
unfolding lifecycle_body detail answer record_call
event_response context settings (ok lifecycle, db) =
    (record { status = 202; body = lifecycle_body lifecycle }, db)
event_response context settings (err (teams_authentication_error reason), db) = (
  detail 401 "invalid Teams activity",
  record_call context settings (context.draws 1) (context.draws 2)
      (record {
        event_type = "teams.auth_failed";
        actor = "teams";
        payload = dict (field "reason" (str reason) no_fields);
      })
      db,
)
event_response context settings (err e, db) = (answer context.services.message (err e), db)

unfoldable pub handled : Context → Settings → Result Activity → Db → Result Lifecycle × Db
unfolding handle_lifecycle
handled context settings (err e) db = (err e, db)
handled context settings (ok activity) db =
    handle_lifecycle context.services.repr settings activity (context.draws 0) db

-- `teams_events`, for the JSON value of the body, `none` where it is malformed.
unfoldable pub teams_events :
    Context
    → Settings
    → (String → Result Bool)
    → (Value → Result Activity)
    → String
    → Option Value
    → Db
    → Response × Db
unfolding detail event_response handled validate_activity
teams_events context settings validate_token model_validate authorization body db =
    if not settings.teams_enabled then (detail 404 "Teams is disabled", db) else elim body [
      | none ↦ (detail 400 "malformed JSON", db)
      | some payload ↦ event_response context settings (
          handled context settings
            (validate_activity validate_token model_validate authorization payload) db)
    ]
