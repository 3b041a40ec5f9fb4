-- ===== src/Pi/Reviewed.antt =====
-- What a review of src/sprinter/pi_gateway.py that succeeds has returned.
use sprinter_oss.Prelude.{
  ◌≡◌, ap, subst, ◌∙◌, String, arith, Bool-cases, inl, inr, ◌==◌, string_eq, eq_iff,
}
use sprinter_oss.Errors.{ok, Result-cases, ok-bind}
use sprinter_oss.Config.{Settings}
use sprinter_oss.Completion.{ReviewDecision}
use sprinter_oss.Schemas.{model_validate}
use sprinter_oss.Schemas.Decision.{IsDecision, model_validate-IsDecision}
use sprinter_oss.Engine.{PiResult}
use sprinter_oss.Pi.Rpc.{Host, version, rpc_prompt}
use sprinter_oss.Pi.Reviews.{
  same_version, checked_version, extract_json, validated, corrected_decision, correction, decided,
  review,
}

validated-IsDecision :
    (host : Host) (raw : String) (d : ReviewDecision) → validated host raw ≡ ok d → IsDecision d
unfolding validated
validated-IsDecision host raw d h =
    let (fs, _, m) = ok-bind (extract_json host.loads raw) model_validate d h in
    model_validate-IsDecision fs d m

corrected_decision-IsDecision :
    (host : Host) (raw : String) (d : ReviewDecision)
    → corrected_decision host raw ≡ ok d
    → IsDecision d
unfolding corrected_decision
corrected_decision-IsDecision host raw d h = elim (Result-cases (validated host raw)) [
  | inl (c, f) ↦ validated-IsDecision host raw d (ground (arith, f, h))
  | inr (x, f) ↦ absurd (ground (arith, f, h))
]

decided-IsDecision :
    (host : Host) (settings : Settings) (raw : String) (d : ReviewDecision)
    → decided host settings raw ≡ ok d
    → IsDecision d
unfolding decided
decided-IsDecision host settings raw d h = elim (Result-cases (validated host raw)) [
  | inl (c, f) ↦ validated-IsDecision host raw d (ground (arith, f, h))
  | inr (x, f) ↦
      let (corrected, _, m) =
        ok-bind (rpc_prompt host settings (correction host x raw)) (corrected_decision host) d
          (rw (f, decided) at h) in
      corrected_decision-IsDecision host corrected d m
]

checked_version-expected :
    (host : Host) (settings : Settings) (found : String)
    → checked_version host settings ≡ ok found
    → (version host ≡ ok settings.pi_expected_version) × (found ≡ settings.pi_expected_version)
unfolding checked_version same_version
checked_version-expected host settings found h =
    let (v, f, m) = ok-bind (version host) (same_version settings.pi_expected_version) found h in
    elim (Bool-cases (v == settings.pi_expected_version)) [
      | inl n ↦
          let same : v ≡ settings.pi_expected_version =
            (eq_iff v settings.pi_expected_version).0 n in
          (f ∙ ap ok same, ground (arith, m, n, same))
      | inr n ↦ absurd (ground (arith, m, n))
    ]

-- A review that succeeds has run the expected version of Pi, names the provider and the model of the
-- settings, and its decision is within the bounds of the schema, also where it was corrected.
pub review-IsDecision :
    (host : Host) (settings : Settings) (prompt : String) (result : PiResult)
    → review host settings prompt ≡ ok result
    → (version host ≡ ok settings.pi_expected_version)
      × (result.model.pi_version ≡ settings.pi_expected_version)
      × (result.model.provider ≡ settings.pi_provider)
      × (result.model.model ≡ settings.pi_model)
      × IsDecision result.decision
unfolding review
review-IsDecision host settings prompt result h =
    let (found, f, h1) = ok-bind (checked_version host settings) _ result h in
    let (raw, _, h2) = ok-bind (rpc_prompt host settings prompt) _ result h1 in
    let (d, g, h3) = ok-bind (decided host settings raw) _ result h2 in
    let (v, same) = checked_version-expected host settings found f in
    (
      v,
      ground (arith, h3, same),
      ground (arith, h3),
      ground (arith, h3),
      subst IsDecision (ground (arith, h3)) (decided-IsDecision host settings raw d g),
    )
