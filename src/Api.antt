-- ===== src/Api.antt =====
-- src/sprinter/api.py: the answers of the API, its exception handlers and its guard. Its child modules
-- are the limit of the body, the views, the handlers and the tools.
--
-- Of FastAPI and Starlette, which are not in the repository, the model takes what the code asks them
-- for: the handler of an exception is that of its nearest class, and an exception with none is
-- answered with 500.
pub mod BodyLimit
pub mod Views
pub mod Handlers
pub mod Tools
use sprinter_oss.Prelude.{ℕ, String, Bool, true, false, Option, none, some, List, if◌then◌else◌}
use sprinter_oss.Json.{Value, Fields, null, bool, num, str, list, dict, no_fields, field}
use sprinter_oss.Errors.{
  Exception, idempotency_conflict, integrity_error, value_error, runtime_error, pi_error,
  pi_unavailable, pi_protocol_error, teams_authentication_error, key_error, type_error,
  attribute_error, os_error, http_error, Result, ok, err, ◌>>=◌,
}
use sprinter_oss.Config.{Settings}
use sprinter_oss.Config.Tokens.{TokenRecord}
use sprinter_oss.Models.{Draws, Db}
use sprinter_oss.Auth.{
  Principal, Request, Limiter, Access, AuditCall, granted, denied, require_scope,
}
use sprinter_oss.Engine.{Services, record_audit}

pub record Response : Type 0 where
  pub status : ℕ
  pub body : Value

-- `{"detail": ...}`.
unfoldable pub detail : ℕ → String → Response
detail status text = record { status = status; body = dict (field "detail" (str text) no_fields) }

-- The handlers of exceptions.
unfoldable pub error_response : (Exception → String) → Exception → Response
unfolding detail
error_response message idempotency_conflict = detail 409 (message idempotency_conflict)
error_response message integrity_error = detail 500 "Internal Server Error"
error_response message (value_error m) = detail 400 (message (value_error m))
error_response message (runtime_error m) = detail 503 "configured dependency is unavailable"
error_response message (pi_error m) = detail 503 "configured dependency is unavailable"
error_response message (pi_unavailable m) = detail 503 "configured dependency is unavailable"
error_response message (pi_protocol_error m) = detail 503 "configured dependency is unavailable"
error_response message (teams_authentication_error m) = detail 500 "Internal Server Error"
error_response message (key_error m) = detail 500 "Internal Server Error"
error_response message type_error = detail 500 "Internal Server Error"
error_response message attribute_error = detail 500 "Internal Server Error"
error_response message (os_error m) = detail 500 "Internal Server Error"
error_response message (http_error m) = detail 500 "Internal Server Error"

-- The answer of a handler that returns or raises.
unfoldable pub answer : (Exception → String) → Result Response → Response
unfolding error_response
answer message (ok response) = response
answer message (err e) = error_response message e

-- What the process keeps: the database and the events of the limiter.
pub record Server : Type 0 where
  pub db : Db
  pub limiter : Limiter

-- What a request finds outside: the services of the engine, the check of a token, the token records,
-- the monotonic time, and the draws of the calls of the database, in their order.
pub record Context : Type 0 where
  pub services : Services
  pub verify : String → String → Bool
  pub records : List TokenRecord
  pub now : ℕ
  pub draws : ℕ → Draws

-- The two calls of the database of `container.audit`, from the k-th draws on.
unfoldable pub record_call : Context → Settings → Draws → Draws → AuditCall → Db → Db
unfolding record_audit
record_call context settings d d' call db =
    (record_audit context.services settings call.event_type call.actor call.payload d d' db).1

-- The dependency of a handler on `require_scope(scope)`: a refusal is audited and answered, otherwise
-- the handler runs.
unfoldable pub with_access :
    Context
    → Settings
    → Access × Limiter
    → (Principal → Db → Result Response × Db)
    → Db
    → Response × Server
unfolding record_call detail answer
with_access context settings (denied status text call, limiter) handler db = (
  detail status text,
  record {
    db = record_call context settings (context.draws 0) (context.draws 1) call db;
    limiter = limiter;
  },
)
with_access context settings (granted principal, limiter) handler db =
    let (result, db1) = handler principal db in
    (answer context.services.message result, record { db = db1; limiter = limiter })

unfoldable pub guarded :
    Context
    → Settings
    → String
    → Request
    → (Principal → Db → Result Response × Db)
    → Server
    → Response × Server
unfolding require_scope with_access
guarded context settings scope request handler server =
    with_access context settings
      (require_scope context.services.lower context.verify settings.rate_limit_per_minute
        context.records scope request context.now server.limiter)
      handler server.db
