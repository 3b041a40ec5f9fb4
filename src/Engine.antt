-- ===== src/Engine.antt =====
-- src/sprinter/engine.py: the container, its audit log, the submission of a review and the
-- notifications of a finished one. Its child modules are the evidence, the identity of a finding,
-- the processing of a job and the flush of the outbox.
pub mod Evidence
pub mod FindingKey
pub mod Process
pub mod Flush
pub mod Submission
pub mod Buttons
use sprinter_oss.Prelude.{
  ℕ, suc, min, String, Bool, true, false, not, Option, none, some, List, [], ◌∷◌, length, map,
  if◌then◌else◌, has_prefix, string_eq, ◌==◌,
}
use Prim.Native.String.{◌++◌ as ◌⧺◌}
use sprinter_oss.Json.{
  Value, Fields, null, bool, num, list, str, dict, no_fields, field, put, number,
}
use sprinter_oss.Errors.{Exception, Result, ok, err, type_error}
use sprinter_oss.Config.{Settings, redaction_keys}
use sprinter_oss.Models.{Draws, Job, TeamsInstallation, Db}
use sprinter_oss.Redaction.{is_secret, redact}
use sprinter_oss.Delivery.{audit, enqueue}
use sprinter_oss.Installations.{installations}
use sprinter_oss.Jobs.{JobRequest, create_job}
use sprinter_oss.Completion.{EvidenceItem, ReviewDecision, ModelIdentity}
use sprinter_oss.Cards.{Link, build_review_card}

-- What `SplunkClient.search` returns, the keys that the engine reads.
pub record SplunkResult : Type 0 where
  pub rows : List Fields
  pub url : String

-- What `PiGateway.review` returns.
pub record PiResult : Type 0 where
  pub decision : ReviewDecision
  pub model : ModelIdentity

-- What stands outside of the engine: the three clients over the network, the tables of Unicode, the
-- text of a list or a dict, SHA-256 of the text that `json.dumps` makes of a value, and the name of
-- the type and the text of an exception. A client gives its answer or the exception that it raises.
pub record Services : Type 0 where
  pub search : String → String → ℕ → Result SplunkResult
  pub review : Value → Result PiResult
  pub send_card : String → Value → Result Value
  pub post_event : Value → Result Value
  pub repr : Value → String
  pub lower : String → String
  pub title_case : String → String
  pub sha256 : Value → String
  pub type_name : Exception → String
  pub message : Exception → String

-- `redact(value, self.settings.redaction_keys)`.
unfoldable pub redact_for : Services → Settings → Value → Value
unfolding is_secret redact redaction_keys
redact_for s settings v = redact (is_secret s.lower (redaction_keys s.lower settings)) v

-- The payload of the second call of `Container.audit`.
unfoldable pub audit_copy : Services → Settings → String → String → String → Value → Value
unfolding redact_for
audit_copy s settings event_id event_type actor payload = dict (
    field "event_id" (str event_id) (
      field "event_type" (str event_type)
        (field "actor" (str actor) (field "payload" (redact_for s settings payload) no_fields))))

-- `Container.audit`, with the draws of its two calls of the database.
unfoldable pub record_audit :
    Services → Settings → String → String → Value → Draws → Draws → Db → String × Db
unfolding audit enqueue audit_copy redact_for
record_audit s settings event_type actor payload d d' db =
    let (event_id, db1) = audit settings event_type actor (redact_for s settings payload) d db in
    if not (settings.splunk_hec_url == "")
    then (
      event_id,
      (enqueue "splunk_audit" (audit_copy s settings event_id event_type actor payload) "" d'
          db1).1,
    )
    else (event_id, db1)

-- `RunSelector`, `ResultSelector` and `LatestSelector` of src/sprinter/schemas.py.
pub data ReviewSelector : Type 0 where
  run : String → Option String → ReviewSelector
  result : String → ReviewSelector
  latest : String → ReviewSelector

-- `selector.type`.
unfoldable pub selector_type : ReviewSelector → String
selector_type (run run_id workflow) = "run"
selector_type (result result_id) = "result"
selector_type (latest earliest) = "latest"

-- `selector.model_dump(exclude_none=True)`.
unfoldable pub selector_dict : ReviewSelector → Fields
selector_dict (run run_id none) = field "type" (str "run") (field "run_id" (str run_id) no_fields)
selector_dict (run run_id (some workflow)) =
    field "type" (str "run")
      (field "run_id" (str run_id) (field "workflow" (str workflow) no_fields))
selector_dict (result result_id) =
    field "type" (str "result") (field "result_id" (str result_id) no_fields)
selector_dict (latest earliest) =
    field "type" (str "latest") (field "earliest" (str earliest) no_fields)

-- `ReviewJobRequest`.
pub record ReviewJobRequest : Type 0 where
  pub selector : ReviewSelector
  pub source : String
  pub summary : Fields
  pub limit : ℕ

-- The arguments with which `submit_review` calls `create_job`.
unfoldable pub job_request : Services → Settings → ReviewJobRequest → String → JobRequest
unfolding redact_for selector_type selector_dict
job_request s settings request idempotency_key = record {
  idempotency_key = idempotency_key;
  selector_type = selector_type request.selector;
  selector = dict (selector_dict request.selector);
  source = request.source;
  summary = redact_for s settings (dict request.summary);
  row_limit = min request.limit settings.prompt_max_rows;
}

-- `Container.submit_review`, with the draws of its three calls of the database.
unfoldable pub submit_review :
    Services
    → Settings
    → ReviewJobRequest
    → String
    → String
    → (ℕ → Draws)
    → Db
    → Db
    → Result (Job × Bool) × Db
unfolding job_request record_audit
submit_review s settings request idempotency_key actor w seen db =
    let (answer, db1) =
      create_job settings (job_request s settings request idempotency_key) (w 0) seen db in
    elim answer [
      | err e ↦ (err e, db1)
      | ok (job, created) ↦
          let event : String = if created then "review_job.created" else "review_job.replayed" in
          let payload : Value = dict (
            field "job_id" (str job.id)
              (field "selector" (dict (selector_dict request.selector)) no_fields)) in
          (ok (job, created), (record_audit s settings event actor payload (w 1) (w 2) db1).1)
    ]

-- The links of the card: the evidence with an address over https.
unfoldable pub links : List EvidenceItem → List Link
links [] = []
links (item ∷ rest) =
    let more : List Link = links rest in
    if has_prefix "https://" item.uri
    then record { label = item.title; url = item.uri } ∷ more
    else more

-- `run_details` of the card.
unfoldable pub run_details : Job → ℕ → ModelIdentity → Fields → Fields
run_details job count model selector =
    put "model" (str (model.provider ⧺ ("/" ⧺ model.model)))
      (put "evidence_count" (number count) (put "source" (str job.source) selector))

-- One item of the outbox for each destination.
unfoldable pub enqueue_cards : Value → List TeamsInstallation → (ℕ → Draws) → ℕ → Db → Db
enqueue_cards card [] w k db = db
enqueue_cards card (row ∷ rows) w k db =
    enqueue_cards card rows w (suc k)
      (enqueue "teams" (dict (field "card" card no_fields)) row.id (w k) db).1

-- The notifications from the selector; `**selector` of a value that is no dict raises TypeError.
unfoldable pub enqueue_reviews :
    Services
    → Job
    → ReviewDecision
    → List EvidenceItem
    → ModelIdentity
    → (ℕ → Draws)
    → Db
    → Value
    → Result Bool × Db
unfolding links run_details enqueue_cards
enqueue_reviews s job decision evidence model w db (dict selector) =
    let card : Value =
      build_review_card s.repr s.lower s.title_case decision
        (run_details job (length evidence) model selector) (links evidence) in
    (ok true, enqueue_cards card (installations true db) w 0 db)
enqueue_reviews s job decision evidence model w db null = (err type_error, db)
enqueue_reviews s job decision evidence model w db (bool b) = (err type_error, db)
enqueue_reviews s job decision evidence model w db (num z t) = (err type_error, db)
enqueue_reviews s job decision evidence model w db (str t) = (err type_error, db)
enqueue_reviews s job decision evidence model w db (list xs) = (err type_error, db)

-- `_enqueue_notifications`.
unfoldable pub enqueue_notifications :
    Services
    → Settings
    → Job
    → ReviewDecision
    → List EvidenceItem
    → ModelIdentity
    → (ℕ → Draws)
    → Db
    → Result Bool × Db
unfolding enqueue_reviews
enqueue_notifications s settings job decision evidence model w db =
    if settings.teams_enabled
    then enqueue_reviews s job decision evidence model w db job.selector_json
    else (ok false, db)
