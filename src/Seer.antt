-- ===== src/Seer.antt =====
-- scripts/submit_seer_run.py: the submission of a completed run to the API.
--
-- The parts of a URL that `urlparse` finds, `json.loads`, and the exchange with the server are
-- arguments; so is the file system.
pub mod Accepted
use Prim.Native.String.{◌++◌ as ◌⧺◌}
use sprinter_oss.Prelude.{
  ℕ, ◌%◌, String, Bool, true, false, not, ◌&&◌, ◌||◌, Option, none, some, List, [], ◌∷◌, ◌==◌,
  nat_eq, string_eq, ltb, if◌then◌else◌, chars, strip, decimal, rstrip_char,
}
use sprinter_oss.Json.{
  Value, Fields, null, bool, num, str, list, dict, no_fields, field, get, number, dumps,
}
use sprinter_oss.Errors.{
  Exception, idempotency_conflict, integrity_error, value_error, runtime_error, pi_error,
  pi_unavailable, pi_protocol_error, teams_authentication_error, key_error, type_error,
  attribute_error, os_error, http_error, Result, ok, err, ◌>>=◌,
}
use sprinter_oss.Models.Table.{exists}
use sprinter_oss.Config.Runtime.{Files}

unfoldable pub long_enough : String → String → Result String
long_enough label value =
    if ltb (chars value) 24
    then err (value_error (label ⧺ " must contain at least 24 characters"))
    else ok value

-- `private_text_file`.
unfoldable pub private_text_file : Files → String → String → Result String
unfolding strip long_enough
private_text_file files path label =
    if not (files.is_file path)
    then err (value_error (label ⧺ (" is not a readable file: " ⧺ path)))
    else if not (files.mode path % 64 == 0)
    then err (value_error (label ⧺ (" must not be accessible by group or other users: " ⧺ path)))
    else (do text ← files.text path; long_enough label (strip text))

unfoldable pub summary_object : Value → Result Fields
summary_object (dict fs) = ok fs
summary_object null = err (value_error "summary must contain one JSON object")
summary_object (bool b) = err (value_error "summary must contain one JSON object")
summary_object (num z t) = err (value_error "summary must contain one JSON object")
summary_object (str s) = err (value_error "summary must contain one JSON object")
summary_object (list xs) = err (value_error "summary must contain one JSON object")

-- `load_summary`; `size` is `st_size`.
unfoldable pub load_summary :
    (String → Option Value) → (String → ℕ) → Files → String → Result Fields
unfolding summary_object
load_summary loads size files path =
    if not (files.is_file path)
    then err (value_error ("summary is not a readable file: " ⧺ path))
    else if ltb 1048576 (size path)
    then err (value_error "summary exceeds 1048576 bytes")
    else (do
      text ← files.text path
      elim (loads text) [ none ↦ err (value_error "JSONDecodeError") | some v ↦ summary_object v ])

-- What `urlparse` finds in a text that it accepts; a part that is missing is the empty text.
pub record Parsed : Type 0 where
  pub scheme : String
  pub hostname : String
  pub username : String
  pub password : String
  pub query : String
  pub fragment : String

abbrev pub local_hosts : List String
local_hosts = "127.0.0.1" ∷ "::1" ∷ "localhost" ∷ []

unfoldable pub is_local : String → Bool
is_local host = exists (λ h. h == host) local_hosts

unfoldable pub has_extras : Parsed → Bool
has_extras p =
    not (p.username == "")
    || (not (p.password == "") || (not (p.query == "") || not (p.fragment == "")))

-- `endpoint`.
unfoldable pub endpoint : (String → Parsed) → String → Result String
unfolding is_local has_extras rstrip_char
endpoint urlparse base_url =
    let p : Parsed = urlparse base_url in
    if not (p.scheme == "http" || p.scheme == "https") || p.hostname == ""
    then err (value_error "Sprinter URL must be an absolute HTTP(S) URL")
    else if has_extras p
    then err (value_error "Sprinter URL must not contain credentials, a query, or a fragment")
    else if not (p.scheme == "https") && not (is_local p.hostname)
    then err (value_error "Sprinter URL must use HTTPS except for a local loopback address")
    else ok (rstrip_char "/" base_url ⧺ "/api/v1/review-jobs")

-- `run_id or summary.get("run_id")`, if it is a text.
unfoldable pub selected_run_id : Fields → Option String → Option String
unfolding get
selected_run_id summary run_id =
    let found : Option String = elim (get "run_id" summary) [ some (str s) ↦ some s | _ ↦ none ] in
    elim run_id [ none ↦ found | some s ↦ if s == "" then found else some s ]

-- `summary.get("workflow", "stix_ingest")`, if it is a text.
unfoldable pub workflow_of : Fields → Option String
unfolding get
workflow_of summary = elim (get "workflow" summary) [
  | none ↦ some "stix_ingest"
  | some (str s) ↦ some s
  | some _ ↦ none
]

-- A text without the white space around it, which has to leave one and at most `limit` characters.
unfoldable pub checked_text : String → String → ℕ → Option String → Result String
unfolding strip
checked_text missing too_long limit none = err (value_error missing)
checked_text missing too_long limit (some s) =
    if strip s == ""
    then err (value_error missing)
    else if ltb limit (chars (strip s))
    then err (value_error too_long)
    else ok (strip s)

unfoldable pub payload_of : Fields → String → String → Fields
unfolding number
payload_of summary run_id workflow =
    field "selector"
      (dict (
        field "type" (str "run")
          (field "run_id" (str run_id) (field "workflow" (str workflow) no_fields))))
      (field "source" (str "seer-stix-runner")
        (field "summary" (dict summary) (field "limit" (number 20) no_fields)))

unfoldable pub checked_run_id : Fields → Option String → Result String
unfolding selected_run_id checked_text
checked_run_id summary run_id =
    checked_text "run_id must be supplied or present in the summary"
      "run_id must not exceed 96 characters" 96 (selected_run_id summary run_id)

unfoldable pub checked_workflow : Fields → Result String
unfolding workflow_of checked_text
checked_workflow summary =
    checked_text "workflow must be a non-empty string" "workflow must not exceed 128 characters" 128
      (workflow_of summary)

-- `build_payload`.
unfoldable pub build_payload : Fields → Option String → Result (Fields × String)
unfolding checked_run_id checked_workflow payload_of
build_payload summary run_id = do
  selected ← checked_run_id summary run_id
  workflow ← checked_workflow summary
  ok (payload_of summary selected workflow, selected)

-- The request that `submit` makes; the body is what its text denotes.
pub record Submission : Type 0 where
  pub url : String
  pub body : Value
  pub token : String
  pub idempotency_key : String
  pub ca_file : Option String

-- The object that an answer with status 202 holds.
unfoldable pub accepted : (String → Option Value) → ℕ × String → Result Fields
unfolding decimal
accepted loads (status, text) =
    if status == 202
    then elim (loads text) [
      | none ↦ err (value_error "JSONDecodeError")
      | some (dict fs) ↦ ok fs
      | some _ ↦ err (runtime_error "Sprinter returned a non-object response")
    ]
    else err (runtime_error ("Sprinter returned unexpected HTTP " ⧺ decimal status))

-- `submit`; the exchange gives the status of the answer and its text.
unfoldable pub submit :
    (String → Parsed)
    → (String → Option Value)
    → (Submission → Result (ℕ × String))
    → String
    → String
    → Fields
    → String
    → Option String
    → Result Fields
unfolding endpoint dumps accepted
submit urlparse loads exchange base_url token payload key ca_file = do
  url ← endpoint urlparse base_url
  answer ← exchange (record {
    url = url;
    body = dumps (dict payload);
    token = token;
    idempotency_key = key;
    ca_file = ca_file;
  })
  accepted loads answer

-- The arguments of the command.
pub record Arguments : Type 0 where
  pub sprinter_url : String
  pub token_file : String
  pub summary_file : String
  pub run_id : Option String
  pub idempotency_key : Option String
  pub ca_file : Option String

-- `args.idempotency_key or f"seer:osint-bot:{run_id}"`.
unfoldable pub key_of : Option String → String → String
key_of given run_id = elim given [
  | none ↦ "seer:osint-bot:" ⧺ run_id
  | some key ↦ if key == "" then "seer:osint-bot:" ⧺ run_id else key
]

-- What the command calls outside.
pub record Host : Type 0 where
  pub files : Files
  pub size : String → ℕ
  pub loads : String → Option Value
  pub urlparse : String → Parsed
  pub exchange : Submission → Result (ℕ × String)

-- The `try` of `main`.
unfoldable pub attempt : Host → Arguments → Result Fields
unfolding private_text_file load_summary build_payload key_of submit
attempt host args = do
  token ← private_text_file host.files args.token_file "token file"
  summary ← load_summary host.loads host.size host.files args.summary_file
  built ← build_payload summary args.run_id
  submit host.urlparse host.loads host.exchange args.sprinter_url token built.0
      (key_of args.idempotency_key built.1) args.ca_file

-- `except (ValueError, RuntimeError, HTTPError, URLError, json.JSONDecodeError)`.
unfoldable pub is_reported : Exception → Bool
is_reported idempotency_conflict = true
is_reported integrity_error = false
is_reported (value_error m) = true
is_reported (runtime_error m) = true
is_reported (pi_error m) = true
is_reported (pi_unavailable m) = true
is_reported (pi_protocol_error m) = true
is_reported (teams_authentication_error m) = false
is_reported (key_error m) = false
is_reported type_error = false
is_reported attribute_error = false
is_reported (os_error m) = false
is_reported (http_error m) = true

-- The code that `main` returns, or the exception that it raises.
unfoldable pub exit_code : Result Fields → Result ℕ
unfolding is_reported
exit_code (ok fs) = ok 0
exit_code (err e) = if is_reported e then ok 1 else err e

unfoldable pub main : Host → Arguments → Result ℕ
unfolding attempt exit_code
main host args = exit_code (attempt host args)
