-- ===== src/Pi/Reviews.antt =====
-- `_extract_json`, `review` and `probe` of src/sprinter/pi_gateway.py.
use Prim.Native.String.{◌++◌ as ◌⧺◌}
use sprinter_oss.Prelude.{
  String, Bool, true, Option, none, some, ◌==◌, string_eq, if◌then◌else◌, clip, strip, lstrip,
  rstrip, has_prefix,
}
use sprinter_oss.Json.{Value, Fields, null, bool, num, str, list, dict, no_fields, field, value_eq}
use sprinter_oss.Errors.{
  Exception, Result, ok, err, ◌>>=◌, value_error, pi_unavailable, pi_protocol_error,
}
use sprinter_oss.Config.{Settings}
use sprinter_oss.Config.Tokens.{after_prefix}
use sprinter_oss.Completion.{ReviewDecision}
use sprinter_oss.Schemas.{model_validate}
use sprinter_oss.Engine.{PiResult}
use sprinter_oss.Pi.Rpc.{Host, rpc_prompt, version}

-- `re.sub(r"\s*```$", "", value)`, for a value that does not end with white space: what stands before
-- the fence at the end.
unfoldable pub before_fence : String → Option String
before_fence String.[] = none
before_fence (String.◌∷◌ c s) =
    let rest = before_fence s in
    if String.◌∷◌ c s == "```"
    then some ""
    else elim rest [ none ↦ none | some front ↦ some (String.◌∷◌ c front) ]

unfoldable pub drop_fence : String → String
unfolding before_fence rstrip
drop_fence value = elim (before_fence value) [ none ↦ value | some front ↦ rstrip front ]

-- `re.sub(r"^```(?:json)?\s*", "", value)`, for a value that begins with a fence.
unfoldable pub after_fence : String → String
unfolding after_prefix lstrip
after_fence value = elim (after_prefix "```" value) [
  | none ↦ value
  | some rest ↦ elim (after_prefix "json" rest) [ none ↦ lstrip rest | some body ↦ lstrip body ]
]

-- The text that `_extract_json` parses.
unfoldable pub unfenced : String → String
unfolding drop_fence after_fence strip
unfenced value =
    if has_prefix "```" (strip value) then drop_fence (after_fence (strip value)) else strip value

unfoldable pub as_object : Value → Result Fields
as_object (dict fs) = ok fs
as_object null = err (value_error "expected a JSON object")
as_object (bool b) = err (value_error "expected a JSON object")
as_object (num z t) = err (value_error "expected a JSON object")
as_object (str s) = err (value_error "expected a JSON object")
as_object (list xs) = err (value_error "expected a JSON object")

-- `_extract_json`.
unfoldable pub extract_json : (String → Option Value) → String → Result Fields
unfolding unfenced as_object
extract_json loads value = elim (loads (unfenced value)) [
  | none ↦ err (value_error "JSONDecodeError")
  | some v ↦ as_object v
]

unfoldable pub same_version : String → String → Result String
same_version expected found =
    if found == expected
    then ok found
    else err (pi_unavailable ("Pi version " ⧺ (found ⧺ (" is installed; expected " ⧺ expected))))

-- The check that `probe` and `review` begin with.
unfoldable pub checked_version : Host → Settings → Result String
unfolding version same_version
checked_version host settings = do
  found ← version host
  same_version settings.pi_expected_version found

unfoldable pub validated : Host → String → Result ReviewDecision
unfolding extract_json
validated host raw = do fs ← extract_json host.loads raw; model_validate fs

unfoldable pub correction : Host → Exception → String → String
correction host first_error raw =
    "Your prior response did not match the required JSON schema. Return only one corrected JSON object. Do not use markdown.\n\nValidation error: "
    ⧺ (host.message first_error ⧺ ("\n\nPrior response:\n" ⧺ clip 8000 raw))

-- The second `try` of `review`.
unfoldable pub corrected_decision : Host → String → Result ReviewDecision
corrected_decision host corrected = elim (validated host corrected) [
  | ok decision ↦ ok decision
  | err e ↦
      err (
        pi_protocol_error ("Pi returned invalid review output after correction: " ⧺ host.message e))
]

-- The decision of an answer, which may be asked for once more.
unfoldable pub decided : Host → Settings → String → Result ReviewDecision
unfolding validated correction corrected_decision
decided host settings raw = elim (validated host raw) [
  | ok decision ↦ ok decision
  | err e ↦ do
    corrected ← rpc_prompt host settings (correction host e raw)
    corrected_decision host corrected
]

-- `review`.
unfoldable pub review : Host → Settings → String → Result PiResult
unfolding checked_version decided
review host settings prompt = do
  found ← checked_version host settings
  raw ← rpc_prompt host settings prompt
  decision ← decided host settings raw
  ok (record {
    decision = decision;
    model = record {
      provider = settings.pi_provider;
      model = settings.pi_model;
      pi_version = found;
    };
  })

abbrev pub probe_prompt : String
probe_prompt = "Return exactly this JSON object and nothing else: {\"status\":\"ok\"}"

unfoldable pub status_ok : Result Fields → Result Bool
status_ok (ok fs) =
    if dict fs == dict (field "status" (str "ok") no_fields)
    then ok true
    else err (pi_unavailable "Pi model/authentication probe did not return the expected response")
status_ok (err e) = err (pi_unavailable "Pi model/authentication probe returned invalid output")

-- `probe`.
unfoldable pub probe : Host → Settings → Result Value
unfolding checked_version status_ok extract_json
probe host settings = do
  found ← checked_version host settings
  answer ← rpc_prompt host settings probe_prompt
  fine ← status_ok (extract_json host.loads answer)
  ok (
      dict (
        field "version" (str found) (
          field "provider" (str settings.pi_provider)
            (field "model" (str settings.pi_model) no_fields))))
