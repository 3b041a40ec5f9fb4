-- ===== src/Teams/Tokens.antt =====
-- `validate_activity` of src/sprinter/teams/gateway.py. The validator of tokens of the Agents SDK and
-- its reader of activities are arguments; of the claims only `is_authenticated` is read.
use sprinter_oss.Prelude.{String, Bool, true, false, none, some, if◌then◌else◌, strip}
use sprinter_oss.Json.{Value}
use sprinter_oss.Errors.{
  Exception, idempotency_conflict, integrity_error, value_error, runtime_error, pi_error,
  pi_unavailable, pi_protocol_error, teams_authentication_error, key_error, type_error,
  attribute_error, os_error, http_error, Result, ok, err, ◌>>=◌,
}
use sprinter_oss.Config.Tokens.{after_prefix}
use sprinter_oss.Teams.{Activity}

-- `except (ValueError, TypeError)`.
unfoldable pub is_malformed : Exception → Bool
is_malformed idempotency_conflict = false
is_malformed integrity_error = false
is_malformed (value_error m) = true
is_malformed (runtime_error m) = false
is_malformed (pi_error m) = false
is_malformed (pi_unavailable m) = false
is_malformed (pi_protocol_error m) = false
is_malformed (teams_authentication_error m) = false
is_malformed (key_error m) = false
is_malformed type_error = true
is_malformed attribute_error = false
is_malformed (os_error m) = false
is_malformed (http_error m) = false

-- The `try`: the token first, then the activity.
unfoldable pub read_activity :
    (String → Result Bool) → (Value → Result Activity) → String → Value → Result (Bool × Activity)
read_activity validate_token model_validate token payload = do
  authenticated ← validate_token token
  activity ← model_validate payload
  ok (authenticated, activity)

unfoldable pub authenticated_activity : Result (Bool × Activity) → Result Activity
unfolding is_malformed
authenticated_activity (err e) =
    if is_malformed e then err (teams_authentication_error "invalid Teams activity") else err e
authenticated_activity (ok (authenticated, activity)) =
    if authenticated
    then ok activity
    else err (teams_authentication_error "unauthenticated Teams activity")

-- `validate_activity`, whose claims nothing reads.
unfoldable pub validate_activity :
    (String → Result Bool) → (Value → Result Activity) → String → Value → Result Activity
unfolding after_prefix strip read_activity authenticated_activity
validate_activity validate_token model_validate authorization payload =
    elim (after_prefix "Bearer " authorization) [
      | none ↦ err (teams_authentication_error "missing Teams bearer token")
      | some token ↦
          authenticated_activity (read_activity validate_token model_validate (strip token) payload)
    ]
