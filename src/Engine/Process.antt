-- ===== src/Engine/Process.antt =====
-- `process_next_job` of src/sprinter/engine.py, run with no commit of another process in between.
pub mod Ending
pub mod Frames
use sprinter_oss.Prelude.{
  ℕ, ◌^◌, min, String, Bool, true, false, ◌&&◌, Option, none, some, List, [], ◌∷◌, ◌==◌, string_eq,
  if◌then◌else◌,
}
use sprinter_oss.Json.{Value, str, dict, no_fields, field}
use sprinter_oss.Errors.{
  Exception, Result, ok, err, ◌>>=◌, idempotency_conflict, integrity_error, value_error,
  runtime_error, pi_error, pi_unavailable, pi_protocol_error, teams_authentication_error, key_error,
  type_error, attribute_error, os_error, http_error,
}
use sprinter_oss.Config.{Settings}
use sprinter_oss.Models.{Draws, JobStatus, failed, Job, Db}
use sprinter_oss.Models.Table.{exists}
use sprinter_oss.Jobs.{claim_job, retry_job, get_job}
use sprinter_oss.Completion.{EvidenceItem, ReviewDecision, ModelIdentity, complete_job}
use sprinter_oss.Engine.{Services, PiResult, record_audit, enqueue_notifications}
use sprinter_oss.Engine.Evidence.{fetch_evidence, prompt_payload}
use sprinter_oss.Engine.FindingKey.{finding_key}

-- Is the id among those of the evidence?
unfoldable pub is_supplied : List EvidenceItem → String → Bool
is_supplied evidence i = exists (λ item. item.external_id == i) evidence

-- `set(ids).issubset(valid_ids)`.
unfoldable pub all_supplied : List EvidenceItem → List String → Bool
unfolding is_supplied
all_supplied evidence [] = true
all_supplied evidence (i ∷ rest) = is_supplied evidence i && all_supplied evidence rest

-- What a review finds out before it writes anything.
pub record Outcome : Type 0 where
  pub evidence : List EvidenceItem
  pub decision : ReviewDecision
  pub model : ModelIdentity

-- The check of the referenced ids, and the decision with its finding key.
unfoldable pub accepted : Services → Job → List EvidenceItem → PiResult → Result Outcome
unfolding all_supplied finding_key
accepted s job evidence answer =
    if all_supplied evidence answer.decision.evidence_ids
    then ok (record {
      evidence = evidence;
      decision = record answer.decision { finding_key = finding_key s.sha256 job evidence };
      model = answer.model;
    })
    else err (pi_error "Pi referenced evidence IDs that were not supplied")

unfoldable pub review_job : Services → Settings → Job → Result Outcome
unfolding accepted
review_job s settings job = do
  evidence ← fetch_evidence s settings job
  answer ← s.review (prompt_payload job evidence)
  accepted s job evidence answer

-- The draws of each call of the database that `process_next_job` makes.
pub record Moments : Type 0 where
  pub claim : Draws
  pub complete : Draws
  pub notify : ℕ → Draws
  pub retry : Draws
  pub audit : Draws
  pub audit_copy : Draws

-- `{"provider": ..., "model": ..., "pi_version": ...}`.
unfoldable pub model_value : ModelIdentity → Value
model_value model = dict (
    field "provider" (str model.provider)
      (field "model" (str model.model) (field "pi_version" (str model.pi_version) no_fields)))

-- The payload of the event of a success.
unfoldable pub success_value : Job → String → ModelIdentity → Value
unfolding model_value
success_value job decision_id model = dict (
    field "job_id" (str job.id)
      (field "decision_id" (str decision_id) (field "model" (model_value model) no_fields)))

-- What follows `complete_job`: the notifications and the audit event.
unfoldable pub announce :
    Services → Settings → Job → Outcome → String → Moments → Db → Result Bool × Db
unfolding success_value
announce s settings job o decision_id m db =
    let (notified, db1) =
      enqueue_notifications s settings job o.decision o.evidence o.model m.notify db in
    elim notified [
      | err e ↦ (err e, db1)
      | ok sent ↦ (
        ok sent,
        (record_audit s settings "review_job.succeeded" "worker"
            (success_value job decision_id o.model) m.audit m.audit_copy db1).1,
      )
    ]

-- The writes of the `try`, for what the review found out.
unfoldable pub write_outcome :
    Services → Settings → Job → Moments → Db → Result Outcome → Result Bool × Db
unfolding announce
write_outcome s settings job m db (err e) = (err e, db)
write_outcome s settings job m db (ok o) =
    let (written, db1) = complete_job settings job o.decision o.evidence o.model m.complete db in
    elim written [
      | err e ↦ (err e, db1)
      | ok decision_id ↦ announce s settings job o decision_id m db1
    ]

-- The body of the `try`.
unfoldable pub attempt : Services → Settings → Job → Moments → Db → Result Bool × Db
unfolding write_outcome
attempt s settings job m db = write_outcome s settings job m db (review_job s settings job)

-- `except (PiUnavailable, PiError, RuntimeError, ValueError)`, by the classes of the exceptions.
unfoldable pub is_caught : Exception → Bool
is_caught (value_error t) = true
is_caught (runtime_error t) = true
is_caught (pi_error t) = true
is_caught (pi_unavailable t) = true
is_caught (pi_protocol_error t) = true
is_caught idempotency_conflict = true
is_caught integrity_error = false
is_caught (teams_authentication_error t) = false
is_caught (key_error k) = false
is_caught type_error = false
is_caught attribute_error = false
is_caught (http_error t) = false
is_caught (os_error t) = false

-- The seconds until the next attempt of a job.
unfoldable pub retry_delay : Job → ℕ
retry_delay job = min 900 (2 ^ min job.attempts 9)

-- `error`.
unfoldable pub error_value : Services → Exception → Value
error_value s e =
    dict (field "type" (str (s.type_name e)) (field "message" (str (s.message e)) no_fields))

-- The body of the `except`, up to its return.
unfoldable pub put_back : Services → Settings → Job → Exception → Moments → Db → Db
unfolding retry_delay error_value
put_back s settings job e m db =
    (record_audit s settings "review_job.retry" "worker"
      (dict (field "job_id" (str job.id) (field "error" (error_value s e) no_fields))) m.audit
      m.audit_copy (retry_job job (error_value s e) (retry_delay job) m.retry db)).1

-- The dict that `process_next_job` returns.
pub data Processed : Type 0 where
  nothing : Processed
  reviewed : String → Processed
  given_back : String → JobStatus → Value → Processed

-- `stored.status if stored else "failed"`.
unfoldable pub stored_status : String → Db → JobStatus
stored_status i db = elim (get_job i db) [ none ↦ failed | some job ↦ job.status ]

-- The end of the `try` statement, from what its body did.
unfoldable pub settle :
    Services → Settings → Job → Moments → Db → Result Bool → Result Processed × Db
unfolding is_caught put_back stored_status error_value
settle s settings job m db (ok sent) = (ok (reviewed job.id), db)
settle s settings job m db (err e) =
    let db1 : Db = put_back s settings job e m db in
    if is_caught e
    then (ok (given_back job.id (stored_status job.id db1) (error_value s e)), db1)
    else (err e, db)

-- `process_next_job`.
unfoldable pub process_next_job : Services → Settings → Moments → Db → Result Processed × Db
unfolding settle attempt
process_next_job s settings m db =
    let (job?, db1) = claim_job (m.claim.clock 0) db db in
    elim job? [
      | none ↦ (ok nothing, db1)
      | some job ↦
          let (tried, db2) = attempt s settings job m db1 in settle s settings job m db2 tried
    ]
