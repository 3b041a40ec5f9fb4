-- ===== src/Completion.antt =====
-- `complete_job` of src/sprinter/db.py: evidence, decision, finding and the finished job, written in
-- one transaction.
--
-- The foreign key of the evidence and of the decision is checked: without its job the insert raises
-- IntegrityError and the transaction is rolled back.
pub mod Findings
use sprinter_oss.Prelude.{
  ℕ, ◌+◌, String, Bool, none, some, List, [], ◌∷◌, ◌++◌, ◌==◌, string_eq, suc, length,
  if◌then◌else◌, clip,
}
use sprinter_oss.Json.{
  Value, Elements, no_items, element, str, list, dict, no_fields, field, dumps, truthy,
}
use sprinter_oss.Errors.{Result, ok, err, integrity_error}
use sprinter_oss.Config.{Settings}
use sprinter_oss.Models.{Draws, succeeded, Job, Evidence, Decision, Finding, Db, new_id, days}
use sprinter_oss.Models.Table.{find, update_where, insert, exists}
use sprinter_oss.Jobs.{has_id}

-- An item of the evidence list, as `_normalise_evidence` of the engine builds it.
pub record EvidenceItem : Type 0 where
  pub external_id : String
  pub kind : String
  pub title : String
  pub uri : String
  pub payload : Value

-- The decision dict: the fields of `ModelDecision`, and the finding key that the engine adds.
pub record ReviewDecision : Type 0 where
  pub verdict : String
  pub severity : String
  pub summary : String
  pub rationale : List String
  pub recommended_actions : List String
  pub evidence_ids : List String
  pub finding_key : String

-- The model dict.
pub record ModelIdentity : Type 0 where
  pub provider : String
  pub model : String
  pub pi_version : String

-- `s or default`.
unfoldable pub or_default : String → String → String
or_default s default = if s == "" then default else s

unfoldable pub strings : List String → Elements
strings [] = no_items
strings (s ∷ ss) = element (str s) (strings ss)

-- The row of one item of evidence.
unfoldable pub evidence_row : Settings → Job → ℕ → EvidenceItem → String → ℕ → Evidence
unfolding or_default
evidence_row settings job now item hex created_at = record {
  id = new_id "evidence" hex;
  job_id = job.id;
  kind = clip 32 (or_default item.kind "event");
  title = clip 256 (or_default item.title "Evidence");
  uri = item.uri;
  payload_json = dumps (if truthy item.payload then item.payload else dict no_fields);
  created_at = created_at;
  expires_at = now + days settings.evidence_retention_days;
}

-- The rows of the whole list; the first takes the draws from position k on.
unfoldable pub evidence_rows : Settings → Job → ℕ → Draws → ℕ → List EvidenceItem → List Evidence
unfolding evidence_row
evidence_rows settings job now d k [] = []
evidence_rows settings job now d k (item ∷ rest) =
    evidence_row settings job now item (d.uuid k) (d.clock k)
    ∷ evidence_rows settings job now d (suc k) rest

-- The row of the decision.
unfoldable pub decision_row : Job → ReviewDecision → ModelIdentity → String → ℕ → Decision
unfolding strings
decision_row job decision model decision_id created_at = record {
  id = decision_id;
  job_id = job.id;
  verdict = decision.verdict;
  severity = decision.severity;
  summary = decision.summary;
  rationale_json = dumps (
      dict (
        field "rationale" (list (strings decision.rationale)) (
          field "recommended_actions" (list (strings decision.recommended_actions))
            (field "evidence_ids" (list (strings decision.evidence_ids)) no_fields))));
  model_provider = model.provider;
  model_id = model.model;
  pi_version = model.pi_version;
  created_at = created_at;
}

abbrev pub has_dedupe_key : String → Finding → Bool
has_dedupe_key key finding = finding.dedupe_key == key

-- The row of a finding that is seen for the first time.
unfoldable pub new_finding : String → String → String → ℕ → ℕ → Finding
new_finding key decision_id hex first_seen last_seen = record {
  id = new_id "finding" hex;
  dedupe_key = key;
  decision_id = decision_id;
  occurrences = 1;
  first_seen_at = first_seen;
  last_seen_at = last_seen;
}

-- One more occurrence.
unfoldable pub seen_again : String → ℕ → Finding → Finding
seen_again decision_id now finding = record finding {
  occurrences = finding.occurrences + 1;
  last_seen_at = now;
  decision_id = decision_id;
}

-- The finding of the key: one more occurrence, or a new row.
unfoldable pub record_finding : String → String → ℕ → String → ℕ → ℕ → List Finding → List Finding
unfolding new_finding seen_again
record_finding key decision_id now hex first_seen last_seen findings =
    elim (find (has_dedupe_key key) findings) [
      | some existing ↦ update_where (has_dedupe_key key) (seen_again decision_id now) findings
      | none ↦ insert (new_finding key decision_id hex first_seen last_seen) findings
    ]

-- `{**decision, "decision_id": decision_id}`.
unfoldable pub decision_value : ReviewDecision → String → Value
unfolding strings
decision_value decision decision_id = dict (
    field "verdict" (str decision.verdict) (
      field "severity" (str decision.severity) (
        field "summary" (str decision.summary) (
          field "rationale" (list (strings decision.rationale)) (
            field "recommended_actions" (list (strings decision.recommended_actions)) (
              field "evidence_ids" (list (strings decision.evidence_ids)) (
                field "finding_key" (str decision.finding_key)
                  (field "decision_id" (str decision_id) no_fields))))))))

-- The values that the update of the job writes.
unfoldable pub completed : Value → ℕ → Job → Job
completed result now job = record job {
  status = succeeded;
  result_json = some (dumps result);
  error_json = none;
  completed_at = some now;
  updated_at = now;
}

-- What the transaction commits. The first draws are the decision's id and `now`; then come those of
-- the evidence rows, of the decision row and of the finding.
unfoldable pub completion :
    Settings → Job → ReviewDecision → List EvidenceItem → ModelIdentity → Draws → Db → Db
unfolding evidence_rows decision_row record_finding decision_value
completion settings job decision evidence model d db =
    let decision_id : String = new_id "decision" (d.uuid 0) in
    let now : ℕ = d.clock 0 in
    let n : ℕ = length evidence in
    record db {
      evidence = db.evidence ++ evidence_rows settings job now d 1 evidence;
      decisions =
          insert (decision_row job decision model decision_id (d.clock (n + 1))) db.decisions;
      findings =
          record_finding decision.finding_key decision_id now (d.uuid (n + 1)) (d.clock (n + 2))
            (d.clock (n + 3)) db.findings;
      jobs =
          update_where (has_id job.id) (completed (decision_value decision decision_id) now)
            db.jobs;
    }

-- `complete_job`: the id of the decision.
unfoldable pub complete_job :
    Settings
    → Job
    → ReviewDecision
    → List EvidenceItem
    → ModelIdentity
    → Draws
    → Db
    → Result String × Db
complete_job settings job decision evidence model d db =
    if exists (has_id job.id) db.jobs
    then (ok (new_id "decision" (d.uuid 0)), completion settings job decision evidence model d db)
    else (err integrity_error, db)
