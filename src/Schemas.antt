-- ===== src/Schemas.antt =====
-- `ModelDecision` of src/sprinter/schemas.py: the answer of the model, as pydantic validates it. A
-- value of another type than the field's, a missing field and a bound that is not met raise
-- ValidationError, which is a ValueError; fields that are not declared are dropped.
pub mod Decision
pub mod Requests
use sprinter_oss.Prelude.{
  ℕ, String, Bool, true, false, not, ◌&&◌, ◌||◌, Option, none, some, List, [], ◌∷◌, map, ◌==◌,
  string_eq, leb, if◌then◌else◌, length, chars, clip, strip, nonempty,
}
use sprinter_oss.Json.{
  Value, Elements, Fields, null, bool, num, str, list, dict, no_items, element, get,
}
use sprinter_oss.Errors.{Result, ok, err, ◌>>=◌, value_error}
use sprinter_oss.Models.Table.{exists}
use sprinter_oss.Completion.{ReviewDecision}

-- A ValidationError.
abbrev pub invalid : {A : Type 0} → Result A
invalid = err (value_error "validation error")

-- `list[str]`: the texts of a list, if it holds nothing else.
unfoldable pub texts_of : Elements → Result (List String)
texts_of no_items = ok []
texts_of (element (str s) rest) = do ss ← texts_of rest; ok (s ∷ ss)
texts_of (element null rest) = invalid
texts_of (element (bool b) rest) = invalid
texts_of (element (num z t) rest) = invalid
texts_of (element (list xs) rest) = invalid
texts_of (element (dict fs) rest) = invalid

-- A required text whose test holds.
unfoldable pub text_field : (String → Bool) → Option Value → Result String
text_field p (some (str s)) = if p s then ok s else invalid
text_field p (some null) = invalid
text_field p (some (bool b)) = invalid
text_field p (some (num z t)) = invalid
text_field p (some (list xs)) = invalid
text_field p (some (dict fs)) = invalid
text_field p none = invalid

-- The bounds of a list.
unfoldable pub bounded : ℕ → ℕ → List String → Result (List String)
bounded low high ss = if leb low (length ss) && leb (length ss) high then ok ss else invalid

-- A list of texts within bounds; where it may be missing, a missing one is empty.
unfoldable pub texts_field : Bool → ℕ → ℕ → Option Value → Result (List String)
unfolding texts_of bounded
texts_field required low high (some (list xs)) = do ss ← texts_of xs; bounded low high ss
texts_field required low high none = if required then invalid else ok []
texts_field required low high (some (str s)) = invalid
texts_field required low high (some null) = invalid
texts_field required low high (some (bool b)) = invalid
texts_field required low high (some (num z t)) = invalid
texts_field required low high (some (dict fs)) = invalid

-- `bound_text`, which runs after the bounds of the list are checked.
unfoldable pub bound_text : List String → List String
unfolding strip
bound_text [] = []
bound_text (value ∷ values) =
    let rest : List String = bound_text values in
    if strip value == "" then rest else clip 1000 (strip value) ∷ rest

abbrev pub verdicts : List String
verdicts = "true_positive" ∷ "false_positive" ∷ "needs_investigation" ∷ "no_finding" ∷ []

abbrev pub severities : List String
severities = "informational" ∷ "low" ∷ "medium" ∷ "high" ∷ "critical" ∷ []

abbrev pub is_one_of : List String → String → Bool
is_one_of words s = exists (λ w. w == s) words

abbrev pub is_summary : String → Bool
is_summary s = leb 1 (chars s) && leb (chars s) 1000

-- `ModelDecision.model_validate`. The finding key is added later, by the engine.
unfoldable pub model_validate : Fields → Result ReviewDecision
unfolding text_field texts_field bound_text get
model_validate fs = do
  verdict ← text_field (is_one_of verdicts) (get "verdict" fs)
  severity ← text_field (is_one_of severities) (get "severity" fs)
  summary ← text_field is_summary (get "summary" fs)
  rationale ← texts_field true 1 10 (get "rationale" fs)
  recommended_actions ← texts_field false 0 10 (get "recommended_actions" fs)
  evidence_ids ← texts_field false 0 100 (get "evidence_ids" fs)
  ok (record {
    verdict = verdict;
    severity = severity;
    summary = summary;
    rationale = bound_text rationale;
    recommended_actions = bound_text recommended_actions;
    evidence_ids = evidence_ids;
    finding_key = "";
  })
