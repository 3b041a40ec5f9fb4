-- ===== src/Auth.antt =====
-- src/sprinter/auth.py: principals, the token authenticator, the rate limiter and `require_scope`.
--
-- A monotonic time is a number of microseconds. The check of a token against a verifier is the
-- argument `verify` (`verify_token` of Config.Tokens, for a scrypt), and the table of lower-case letters
-- the argument `lower`.
pub mod Window
pub mod Scopes
use sprinter_oss.Prelude.{
  ℕ, ◌+◌, String, Bool, true, false, not, ◌&&◌, ◌||◌, Option, none, some, List, [], ◌∷◌, ◌++◌, ◌==◌,
  string_eq, ltb, leb, if◌then◌else◌, length,
}
use sprinter_oss.Config.Tokens.{TokenRecord}
use sprinter_oss.Json.{Value, str, dict, no_fields, field}
use sprinter_oss.Models.{seconds}
use sprinter_oss.Models.Table.{exists}
use Prim.Native.String.{◌++◌ as ◌⧺◌}

pub record Principal : Type 0 where
  pub name : String
  pub scopes : List String

-- `scope in scopes`.
unfoldable pub has_scope : String → List String → Bool
has_scope scope scopes = exists (λ s. s == scope) scopes

-- `Principal.permits`.
unfoldable pub permits : Principal → String → Bool
permits p scope = has_scope "admin" p.scopes || has_scope scope p.scopes

-- The loop of `authenticate`: every record is tried, and the last that matches is kept.
unfoldable pub last_match :
    (String → String → Bool) → String → List TokenRecord → Option TokenRecord → Option TokenRecord
last_match verify token [] matched = matched
last_match verify token (r ∷ rs) matched =
    last_match verify token rs (if verify token r.verifier then some r else matched)

-- `TokenAuthenticator.authenticate`.
unfoldable pub authenticate :
    (String → String → Bool) → String → List TokenRecord → Option Principal
unfolding last_match
authenticate verify token records = elim (last_match verify token records none) [
  | none ↦ none
  | some r ↦ some (record { name = r.name; scopes = r.scopes })
]

-- `events[0] < cutoff`, for `cutoff = now - 60`.
unfoldable pub is_old : ℕ → ℕ → Bool
is_old now t = ltb (t + seconds 60) now

-- `while events and events[0] < cutoff: events.popleft()`.
unfoldable pub drop_old : ℕ → List ℕ → List ℕ
drop_old now [] = []
drop_old now (t ∷ ts) = let rest = drop_old now ts in if is_old now t then rest else t ∷ ts

-- `check` on the events of one key.
unfoldable pub check_events : ℕ → ℕ → List ℕ → Bool × List ℕ
check_events limit now events =
    let left : List ℕ = drop_old now events in
    if leb limit (length left) then (false, left) else (true, left ++ now ∷ [])

-- The events of the limiter, a deque for each key.
abbrev pub Limiter : Type 0
Limiter = String → List ℕ

-- `SlidingWindowRateLimiter.check`.
unfoldable pub check : ℕ → String → ℕ → Limiter → Bool × Limiter
check limit key now events =
    let (accepted, left) = check_events limit now (events key) in
    (accepted, λ k. if k == key then left else events k)

-- What `require_scope` reads of a request: the credentials that the bearer scheme found, and the
-- address of the client.
pub record Credentials : Type 0 where
  pub scheme : String
  pub credentials : String

pub record Request : Type 0 where
  pub credentials : Option Credentials
  pub client : Option String

-- A call of `container.audit`.
pub record AuditCall : Type 0 where
  pub event_type : String
  pub actor : String
  pub payload : Value

pub data Access : Type 0 where
  granted : Principal → Access
  -- An HTTPException with its status and detail, after one call of `audit`.
  denied : ℕ → String → AuditCall → Access

abbrev fails : String → AuditCall
fails reason = record {
  event_type = "auth.failed";
  actor = "anonymous";
  payload = dict (field "reason" (str reason) no_fields);
}

-- The client's part of the key of the limiter.
unfoldable pub client_of : Request → String
client_of request = elim request.client [ none ↦ "unknown" | some host ↦ host ]

-- The checks for a principal: the rate first, then the scope.
unfoldable pub admit : ℕ → String → Request → Principal → ℕ → Limiter → Access × Limiter
unfolding client_of
admit limit scope request principal now events =
    let (accepted, events') = check limit (principal.name ⧺ (":" ⧺ client_of request)) now events in
    if accepted
    then (if permits principal scope then (granted principal, events') else (
      denied 403 "insufficient scope" (record {
        event_type = "auth.forbidden";
        actor = principal.name;
        payload = dict (field "required_scope" (str scope) no_fields);
      }),
      events',
    ))
    else (
      denied 429 "rate limit exceeded" (record {
        event_type = "rate_limited";
        actor = principal.name;
        payload = dict (field "client" (str (client_of request)) no_fields);
      }),
      events',
    )

-- The token of a request with a bearer scheme.
unfoldable pub bearer_token : (String → String) → Request → Option String
bearer_token lower request = elim request.credentials [
  | none ↦ none
  | some c ↦ if lower c.scheme == "bearer" then some c.credentials else none
]

-- `require_scope(scope)`.
unfoldable pub require_scope :
    (String → String)
    → (String → String → Bool)
    → ℕ
    → List TokenRecord
    → String
    → Request
    → ℕ
    → Limiter
    → Access × Limiter
unfolding bearer_token
require_scope lower verify limit records scope request now events =
    elim (bearer_token lower request) [
      | none ↦ (denied 401 "missing bearer token" (fails "missing_token"), events)
      | some token ↦ elim (authenticate verify token records) [
        | none ↦ (denied 401 "invalid bearer token" (fails "invalid_token"), events)
        | some principal ↦ admit limit scope request principal now events
      ]
    ]
