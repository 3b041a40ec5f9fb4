-- ===== src/Examples.antt =====
-- Concrete databases and calls: tests of the operations, and the theorems at inputs that meet their
-- hypotheses.
mod Reviews
mod Access
mod Startup
mod Requests
use sprinter_oss.Prelude.{
  none, ℕ, ◌/◌, ◌+◌, ◌≡◌, ◌≢◌, refl, String, Bool, true, false, some, List, [], ◌∷◌, leb, ltb,
  if◌then◌else◌, string_eq,
}
use sprinter_oss.Json.{null, str, dict, no_fields, field}
use sprinter_oss.Errors.{ok, err, idempotency_conflict}
use sprinter_oss.Config.{Settings}
use sprinter_oss.Models.{
  JobStatus, Draws, Job, Db, empty_db, day, new_id, AuditEvent, Outbox, DeliveryStatus,
}
use sprinter_oss.Models.Table.{
  find, exists, select, update_where, count_where, order_by, update_found,
}
use sprinter_oss.Jobs.{
  JobRequest, create_job, new_job, claim_job, claim_row, candidate, get_job, is_claimable,
  is_waiting, claimed, same_request,
}
use sprinter_oss.Jobs.Claims.{
  Claims, ClaimsOldest, claim_job_once, claim_job_lem, claim_job_available,
}
use sprinter_oss.Jobs.Submission.{create_job_replay, create_job_race}
use sprinter_oss.Operations.{Operation, apply, creates, claims, recovers, upserts, purges, run}
use sprinter_oss.Operations.Destinations.{is_enabled_at}
use sprinter_oss.Operations.Reach.{IsWellFormed, run-IsWellFormed, run-is_enabled_at}
use sprinter_oss.Installations.{Conversation, upsert_installation, refreshed}
use sprinter_oss.Retention.{purge, is_finished}
use sprinter_oss.Retention.Rows.{finished_by, get_job-purge, audit-purge-Exact, audit-purge-ByDate}
use sprinter_oss.Delivery.{backoff}
use sprinter_oss.Delivery.Attempts.{backoff_lem}

abbrev pub settings : Settings
settings = record {
  environment = "production";
  host = "127.0.0.1";
  database_path = "";
  api_token_records = "";
  max_body_bytes = 1048576;
  rate_limit_per_minute = 2;
  worker_stale_seconds = 120;
  job_max_attempts = 5;
  job_retention_days = 90;
  evidence_retention_days = 180;
  audit_retention_days = 365;
  teams_installation_retention_days = 365;
  pi_command = "pi";
  pi_expected_version = "0.83.0";
  pi_provider = "p";
  pi_model = "m";
  pi_thinking = "high";
  pi_timeout_seconds = 180;
  pi_max_output_bytes = 4096;
  pi_probe_interval_seconds = 60;
  model_data_policy_ack = true;
  prompt_max_rows = 20;
  prompt_extra_redact_keys = "";
  splunk_base_url = "";
  splunk_web_url = "";
  splunk_hec_url = "https://hec";
  splunk_hec_token = none;
  splunk_hec_token_file = none;
  splunk_username = "";
  splunk_password = none;
  splunk_password_file = none;
  splunk_ca_file = none;
  splunk_allowed_indexes = "main";
  splunk_results_index = "";
  adx_cluster_url = "";
  adx_database = "";
  adx_tenant_id = "";
  adx_client_id = "";
  adx_client_secret = none;
  adx_client_secret_file = none;
  adx_allowed_tables = "Events";
  confluence_base_url = "";
  confluence_email = "";
  confluence_api_token = none;
  confluence_api_token_file = none;
  confluence_allowed_spaces = "SEC";
  teams_enabled = true;
  teams_app_id = "";
  teams_tenant_id = "";
  teams_client_secret = none;
  teams_client_secret_file = none;
  teams_allowed_tenant_ids = "t";
  teams_public_base_url = "";
}

-- Draws of a clock that stands at t, with identifiers that begin with a tag.
abbrev pub draws : ℕ → String → Draws
draws t tag = record { clock = λ k. t + k; uuid = λ k. tag }

abbrev pub request : String → String → JobRequest
request key run_id = record {
  idempotency_key = key;
  selector_type = "run";
  selector = dict (field "type" (str "run") (field "run_id" (str run_id) no_fields));
  source = "runner";
  summary = dict no_fields;
  row_limit = 10;
}

abbrev pub first_job : Job
first_job = new_job settings (request "key-0001" "r1") (draws 100 "a")

abbrev pub second_job : Job
second_job = new_job settings (request "key-0002" "r2") (draws 50 "b")

abbrev pub queue : Db
queue = record empty_db { jobs = first_job ∷ second_job ∷ [] }

-- The older job comes first.
claims_oldest : (claim_job 500 queue queue).0 ≡ some (claimed 500 second_job)
unfolding claim_job claim_row candidate is_claimable is_waiting claimed get_job new_job find select
    order_by count_where update_where new_id
claims_oldest = refl

-- Another worker had claimed the second job since it was seen, and has given it back.
abbrev retried_since : Db
retried_since = record empty_db {
  jobs = first_job ∷ record second_job { status = JobStatus.retry; attempts = 1 } ∷ [];
}

claim_job_lem_example :
    (c : Job) × (candidate 500 queue ≡ some c)
    × Claims 500 c retried_since (claim_job 500 queue retried_since).1 (claimed 500 second_job)
unfolding claim_job claim_row candidate is_claimable is_waiting claimed get_job new_job find select
    order_by count_where update_where new_id exists
claim_job_lem_example =
    claim_job_lem 500 queue retried_since (claimed 500 second_job) (refl, (refl, tt)) refl

claim_job_once_example : ◌≢◌ {A = String} "job_b" "job_a"
unfolding claim_job claim_row candidate is_claimable is_waiting claimed get_job new_job find select
    order_by count_where update_where new_id
claim_job_once_example =
    claim_job_once 500 501 queue (claim_job 500 queue queue).1 queue (claimed 500 second_job)
      (claimed 501 first_job) refl refl

created_first :
    (create_job settings (request "key-0001" "r1") (draws 100 "a") empty_db empty_db).0
    ≡ ok (first_job, true)
unfolding create_job new_job find exists new_id
created_first = refl

create_job_replay_example :
    let db' = (create_job settings (request "key-0001" "r1") (draws 100 "a") empty_db empty_db).1 in
    create_job settings (request "key-0001" "r2") (draws 300 "c") db' db' ≡ (
      if same_request first_job (request "key-0001" "r2")
      then (ok (first_job, false), db')
      else (err idempotency_conflict, db'))
create_job_replay_example =
    (create_job_replay settings (request "key-0001" "r1") (request "key-0001" "r2") (draws 100 "a")
      (draws 300 "c") empty_db empty_db first_job created_first refl).0

create_job_race_example :
    create_job settings (request "key-0001" "another") (draws 300 "c") empty_db queue
    ≡ (ok (first_job, false), queue)
unfolding find new_job
create_job_race_example =
    create_job_race settings (request "key-0001" "another") (draws 300 "c") empty_db queue first_job
      refl refl

claim_job_available_example : ClaimsOldest 500 queue
unfolding exists is_claimable is_waiting new_job new_id
claim_job_available_example = claim_job_available 500 queue (refl, (refl, tt)) refl

exact : ℕ → ℕ → Bool
exact stored limit = ltb stored limit

by_date : ℕ → ℕ → Bool
by_date stored limit = leb (stored / day) (limit / day)

empty-IsWellFormed : IsWellFormed empty_db
empty-IsWellFormed = record {
  jobs = record { ids = tt; keys = tt; rows = tt };
  references = record { evidence = tt; decisions = tt; findings = tt };
  destinations = tt;
}

abbrev conversation : Conversation
conversation = record {
  conversation_id = "c";
  service_url = "u";
  reference_json = "{}";
  scope = "personal";
}

abbrev history : List Operation
history =
    creates (request "key-0001" "r1") (draws 100 "a") empty_db
    ∷ claims 500 queue
    ∷ recovers 900 (draws 1000000000 "x")
    ∷ upserts conversation "t" (draws 7 "i")
    ∷ purges 100000000000000
    ∷ []

run-IsWellFormed_example : IsWellFormed (run by_date settings history empty_db)
run-IsWellFormed_example = run-IsWellFormed by_date settings history empty_db empty-IsWellFormed

abbrev reviewed_long_ago : Db
reviewed_long_ago = record empty_db {
  jobs = record first_job { status = JobStatus.succeeded; completed_at = some 5 } ∷ second_job ∷ [];
}

get_job-purge_example :
    get_job "job_a" (purge by_date settings 100000000000000 reviewed_long_ago).1 ≡ none
unfolding get_job find new_job new_id exists finished_by
get_job-purge_example =
    get_job-purge by_date settings 100000000000000 reviewed_long_ago "job_a"
      (unfold by_date in (λ s l. refl)) (refl, (refl, tt))

abbrev event : AuditEvent
event = record {
  id = "audit_a";
  event_type = "tool.adx";
  actor = "operator";
  payload_json = null;
  created_at = 5;
  expires_at = 90000000000;
}

abbrev log : Db
log = record empty_db { audit_events = event ∷ [] }

audit-purge-ByDate_example : (purge by_date settings 89000000000 log).1.audit_events ≡ []
unfolding select
audit-purge-ByDate_example =
    (audit-purge-ByDate by_date settings 89000000000 log (unfold by_date in (λ s l. refl))).0

abbrev pub item : Outbox
item = record {
  id = "delivery_a";
  channel = "teams";
  target_id = "teams_i";
  payload_json = null;
  status = DeliveryStatus.pending;
  attempts = 0;
  max_attempts = 10;
  available_at = 3;
  last_error = "";
  created_at = 3;
  updated_at = 3;
}

abbrev sending : Db
sending = record empty_db { delivery_outbox = item ∷ [] }

abbrev pub seen_once : Db
seen_once = record empty_db {
  teams_installations =
      record {
        id = "teams_i";
        tenant_id = "t";
        conversation_id = "c";
        service_url = "u";
        scope = "personal";
        reference_json = "{}";
        enabled = true;
        active = true;
        discovered_at = 1;
        last_seen_at = 1;
      }
      ∷ [];
}

run-is_enabled_at_example : is_enabled_at "teams_i" seen_once ≡ true
unfolding run apply upsert_installation find update_found exists refreshed
run-is_enabled_at_example =
    run-is_enabled_at exact settings "teams_i" (upserts conversation "t" (draws 7 "i") ∷ [])
      seen_once (refl, tt) refl
