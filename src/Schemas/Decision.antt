-- ===== src/Schemas/Decision.antt =====
-- What holds of a decision that `ModelDecision` of src/sprinter/schemas.py has validated.
use sprinter_oss.Prelude.{
  ℕ, ◌≤◌, ◌≡◌, subst, String, Bool, true, false, Option, List, [], ◌∷◌, arith, ◌==◌, string_eq,
  length, chars, chars-clip, strip, All, Bool-cases, inl, inr,
}
use sprinter_oss.Json.{Value, Fields, get}
use sprinter_oss.Errors.{ok, ok-bind}
use sprinter_oss.Completion.{ReviewDecision}
use sprinter_oss.Schemas.{
  text_field, bounded, texts_field, bound_text, verdicts, severities, is_one_of, is_summary,
  model_validate,
}

-- A decision within the bounds of the schema.
pub record IsDecision (d : ReviewDecision) : Type 0 where
  pub verdict : is_one_of verdicts d.verdict ≡ true
  pub severity : is_one_of severities d.severity ≡ true
  pub summary : is_summary d.summary ≡ true
  pub rationale : length d.rationale ≤ 10
  pub rationale_texts : All (λ s. chars s ≤ 1000) d.rationale
  pub actions : length d.recommended_actions ≤ 10
  pub action_texts : All (λ s. chars s ≤ 1000) d.recommended_actions
  pub evidence_ids : length d.evidence_ids ≤ 100

text_field_ok :
    (p : String → Bool) (v : Option Value) (s : String) → text_field p v ≡ ok s → p s ≡ true
unfolding text_field
text_field_ok p v s e = ground (arith, e)

texts_field_ok :
    (required : Bool) (low high : ℕ) (v : Option Value) (ss : List String)
    → texts_field required low high v ≡ ok ss
    → length ss ≤ high
unfolding texts_field bounded
texts_field_ok required low high v ss e = ground (arith, e)

bound_text-le :
    (ss : List String)
    → (length (bound_text ss) ≤ length ss) × All (λ s. chars s ≤ 1000) (bound_text ss)
unfolding bound_text
bound_text-le [] = (omega arith, tt)
bound_text-le (s ∷ ss) = elim (Bool-cases (strip s == "")) [
  | inl e ↦ rw e (omega (arith, (bound_text-le ss).0), (bound_text-le ss).1)
  | inr e ↦
      rw e (omega (arith, (bound_text-le ss).0), (chars-clip 1000 (strip s), (bound_text-le ss).1))
]

-- A decision that is validated is within the bounds: a verdict and a severity of the known ones, a
-- summary of 1 to 1000 characters, at most 10 reasons and 10 actions of at most 1000 characters each,
-- and at most 100 evidence ids.
pub model_validate-IsDecision :
    (fs : Fields) (d : ReviewDecision) → model_validate fs ≡ ok d → IsDecision d
unfolding model_validate
model_validate-IsDecision fs d e =
    let (verdict, h1, e1) = ok-bind (text_field (is_one_of verdicts) (get "verdict" fs)) _ d e in
    let (severity, h2, e2) =
      ok-bind (text_field (is_one_of severities) (get "severity" fs)) _ d e1 in
    let (summary, h3, e3) = ok-bind (text_field is_summary (get "summary" fs)) _ d e2 in
    let (rs, h4, e4) = ok-bind (texts_field true 1 10 (get "rationale" fs)) _ d e3 in
    let (as_, h5, e5) = ok-bind (texts_field false 0 10 (get "recommended_actions" fs)) _ d e4 in
    let (ids, h6, e6) = ok-bind (texts_field false 0 100 (get "evidence_ids" fs)) _ d e5 in
    let made : ReviewDecision = record {
      verdict = verdict;
      severity = severity;
      summary = summary;
      rationale = bound_text rs;
      recommended_actions = bound_text as_;
      evidence_ids = ids;
      finding_key = "";
    } in
    let same : made ≡ d = ground (arith, e6) in
    subst IsDecision same (record {
      verdict = text_field_ok (is_one_of verdicts) (get "verdict" fs) verdict h1;
      severity = text_field_ok (is_one_of severities) (get "severity" fs) severity h2;
      summary = text_field_ok is_summary (get "summary" fs) summary h3;
      rationale =
          omega (arith, (bound_text-le rs).0, texts_field_ok true 1 10 (get "rationale" fs) rs h4);
      rationale_texts = (bound_text-le rs).1;
      actions = omega (
        arith,
        (bound_text-le as_).0,
        texts_field_ok false 0 10 (get "recommended_actions" fs) as_ h5,
      );
      action_texts = (bound_text-le as_).1;
      evidence_ids = texts_field_ok false 0 100 (get "evidence_ids" fs) ids h6;
    })
