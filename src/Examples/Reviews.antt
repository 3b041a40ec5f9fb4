-- ===== src/Examples/Reviews.antt =====
-- The engine and the gateway at concrete inputs.
use Prim.Native.String.{◌++◌}
use sprinter_oss.Prelude.{
  arith, ◌+◌, ◌≡◌, refl, String, true, false, none, some, [], ◌∷◌, All, string_eq,
}
use sprinter_oss.Json.{null, str, dict, no_fields, field, get}
use sprinter_oss.Config.{allowed_teams_tenants}
use sprinter_oss.Dynamic.{subscript}
use sprinter_oss.Errors.{ok, err, http_error}
use sprinter_oss.Models.{JobStatus, Job, Db, empty_db, new_id, Outbox}
use sprinter_oss.Models.Table.{
  find, exists, select, update_where, count_where, order_by, update_found,
}
use sprinter_oss.Jobs.{
  new_job, create_job, flush_job, claim_job, claim_row, candidate, get_job, is_claimable,
  is_waiting, claimed, recover_abandoned_jobs,
}
use sprinter_oss.Jobs.Recovery.{left_behind, get_job-recover_abandoned_jobs}
use sprinter_oss.Completion.{EvidenceItem, ReviewDecision, ModelIdentity, complete_job}
use sprinter_oss.Completion.Findings.{occurrences_of, complete_job_lem}
use sprinter_oss.Installations.{upsert_installation}
use sprinter_oss.Operations.Destinations.{is_enabled_at}
use sprinter_oss.Engine.{Services, ReviewJobRequest, run, job_request, submit_review}
use sprinter_oss.Engine.Submission.{IsBounded, submit_review-IsBounded}
use sprinter_oss.Engine.Evidence.{normalise_evidence, splunk_literal}
use sprinter_oss.Engine.Evidence.Literals.{read_quoted, read_quoted-splunk_literal}
use sprinter_oss.Engine.Evidence.Numbering.{IsPresentable, normalise_evidence-IsPresentable}
use sprinter_oss.Engine.FindingKey.{payload_fields, finding_key}
use sprinter_oss.Engine.FindingKey.Stability.{finding_key-SameItems}
use sprinter_oss.Engine.Process.{Moments, process_next_job}
use sprinter_oss.Engine.Process.Ending.{Ends, process_next_job-Ends}
use sprinter_oss.Engine.Flush.{deliver, destination}
use sprinter_oss.Engine.Flush.Destination.{deliver-is_enabled_at}
use sprinter_oss.Installations.{installations}
use sprinter_oss.Teams.{Activity, tenant_of, handle_lifecycle}
use sprinter_oss.Teams.Tenants.{handle_lifecycle-is_enabled_at}
use sprinter_oss.Examples.{settings, draws, first_job, second_job, queue, seen_once, item}

abbrev decision : ReviewDecision
decision = record {
  verdict = "no_finding";
  severity = "low";
  summary = "nothing";
  rationale = "quiet" ∷ [];
  recommended_actions = [];
  evidence_ids = "e1" ∷ [];
  finding_key = "k";
}

abbrev model : ModelIdentity
model = record { provider = "p"; model = "m"; pi_version = "1" }

-- Splunk is not configured, and Pi answers with one decision.
abbrev pub services : Services
services = record {
  search = λ query earliest max_rows. err (http_error "no network");
  review = λ prompt. ok (record { decision = decision; model = model });
  send_card = λ reference card. ok null;
  post_event = λ event. ok null;
  repr = λ v. "...";
  lower = λ s. s;
  title_case = λ s. s;
  sha256 = λ v. "digest";
  type_name = λ e. "Error";
  message = λ e. "message";
}

abbrev pub moments : Moments
moments = record {
  claim = draws 500 "c";
  complete = draws 510 "d";
  notify = λ k. draws 520 "n";
  retry = draws 530 "r";
  audit = draws 540 "a";
  audit_copy = draws 550 "b";
}

process_next_job-Ends_example :
    (end : Job) × (get_job "job_b" (process_next_job services settings moments queue).1 ≡ some end)
    × Ends moments (claimed 500 second_job) end (process_next_job services settings moments queue).0
unfolding claim_job claim_row candidate is_claimable is_waiting claimed get_job new_job find select
    order_by count_where update_where new_id exists
process_next_job-Ends_example =
    process_next_job-Ends services settings moments queue (claimed 500 second_job)
      (refl, (refl, tt)) refl

abbrev submission : ReviewJobRequest
submission = record {
  selector = run "r1" none;
  source = "api";
  summary = field "token" (str "t") no_fields;
  limit = 10;
}

submit_review-IsBounded_example :
    IsBounded services settings submission
      (new_job settings (job_request services settings submission "key-0001") (draws 100 "a"))
unfolding submit_review create_job flush_job find exists new_job new_id
submit_review-IsBounded_example =
    submit_review-IsBounded services settings submission "key-0001" "operator" (λ k. draws 100 "a")
      empty_db empty_db
      (new_job settings (job_request services settings submission "key-0001") (draws 100 "a")) refl

normalise_evidence-IsPresentable_example :
    All (IsPresentable services settings) (normalise_evidence services settings (str "x" ∷ []))
normalise_evidence-IsPresentable_example =
    (normalise_evidence-IsPresentable services settings (str "x" ∷ [])).0

read_quoted-splunk_literal_example :
    read_quoted false (splunk_literal "a\"b\\" ++ ("\"" ++ " | head 5"))
    ≡ some ("a\"b\\", " | head 5")
read_quoted-splunk_literal_example = read_quoted-splunk_literal "a\"b\\" " | head 5" (omega arith)

abbrev observed : String → EvidenceItem
observed time = record {
  external_id = "e1";
  kind = "splunk";
  title = "Rule";
  uri = "https://splunk";
  payload = dict (field "rule" (str "R1") (field "time" (str time) no_fields));
}

finding_key-SameItems_example :
    finding_key services.sha256 first_job (observed "1" ∷ [])
    ≡ finding_key services.sha256 second_job (observed "2" ∷ [])
unfolding payload_fields get new_job
finding_key-SameItems_example =
    finding_key-SameItems services.sha256 first_job second_job (observed "1" ∷ [])
      (observed "2" ∷ []) refl refl
      (
        (
          refl,
          refl,
          (
            refl,
            (
              refl,
              (refl, (refl, (refl, (refl, (refl, (refl, (refl, (refl, (refl, (refl, tt)))))))))),
            ),
          ),
        ),
        tt,
      )

abbrev card_item : Outbox
card_item = record item { payload_json = dict (field "card" null no_fields) }

abbrev outbox : Db
outbox = record seen_once { delivery_outbox = card_item ∷ [] }

deliver-is_enabled_at_example : is_enabled_at "teams_i" outbox ≡ true
unfolding deliver destination subscript installations find select order_by get
deliver-is_enabled_at_example =
    (deliver-is_enabled_at services true card_item outbox null refl refl).0

abbrev activity : Activity
activity = record {
  kind = "installationUpdate";
  action = "add";
  channel_data = dict (field "tenant" (dict (field "id" (str "t") no_fields)) no_fields);
  conversation = some (record {
    conversation_id = "c";
    service_url = "u";
    reference_json = "{}";
    scope = "personal";
  });
}

handle_lifecycle-is_enabled_at_example : is_enabled_at "teams_i" seen_once ≡ true
unfolding handle_lifecycle tenant_of exists find upsert_installation update_found
    allowed_teams_tenants
handle_lifecycle-is_enabled_at_example =
    handle_lifecycle-is_enabled_at services.repr settings activity (draws 7 "i") seen_once "teams_i"
      refl

complete_job_lem_example :
    occurrences_of "k"
      (complete_job settings first_job decision
        (observed "1" ∷ [])
        model
        (draws 9 "d")
        queue).1.findings
    ≡ occurrences_of "k" queue.findings + 1
unfolding exists new_job new_id
complete_job_lem_example =
    (complete_job_lem settings first_job decision (observed "1" ∷ []) model (draws 9 "d") queue).1
      "k"

abbrev crashed : Job
crashed = record first_job { status = JobStatus.running; attempts = 9; claimed_at = some 5 }

get_job-recover_abandoned_jobs_example :
    get_job "job_a"
      (recover_abandoned_jobs 1 (draws 9000000 "x") (record empty_db { jobs = crashed ∷ [] })).1
    ≡ some
        (record crashed { status = JobStatus.retry; available_at = 9000001; updated_at = 9000002 })
unfolding get_job find new_job new_id left_behind
get_job-recover_abandoned_jobs_example =
    (get_job-recover_abandoned_jobs 1 (draws 9000000 "x") (record empty_db { jobs = crashed ∷ [] })
      "job_a" crashed refl).0
