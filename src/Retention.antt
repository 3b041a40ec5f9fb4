-- ===== src/Retention.antt =====
-- `purge` of src/sprinter/db.py: the five deletes, with the cascades of the foreign keys, and the
-- row that records them.
--
-- The deletes are raw SQL, and compare the text of a stored instant with the text to which the bound
-- limit is adapted. How SQLAlchemy and SQLite write the two is not in the repository, so each
-- definition takes that comparison as its argument `before`: `before stored limit` says whether
-- `column < :limit` holds. `Exact` and `ByDate` are two behaviours it can have.
pub mod Rows
use sprinter_oss.Prelude.{
  ℕ, ◌-◌, ◌/◌, String, Bool, true, false, not, ◌&&◌, Option, none, some, List, [], ◌∷◌, ◌==◌,
  string_eq, ltb, leb, ◌≡◌,
}
use sprinter_oss.Json.{Value, dict, field, no_fields, number, dumps}
use sprinter_oss.Config.{Settings}
use sprinter_oss.Models.{
  JobStatus, Job, Evidence, Decision, Finding, AuditEvent, DeliveryStatus, Outbox,
  TeamsInstallation, RetentionMetadata, Db, day, days,
}
use sprinter_oss.Models.Table.{count_where, delete_where, exists}

-- The comparison that the conditions are written for.
abbrev pub Exact : (ℕ → ℕ → Bool) → Type 0
Exact before = (stored limit : ℕ) → before stored limit ≡ ltb stored limit

-- SQLAlchemy stores `2026-08-01 09:30:00.000000`, and the adapter that db.py registers in line 34
-- writes the limit as `2026-08-01T09:30:00+00:00`. The texts agree up to the date, and the space is
-- below the `T`: the stored text is the smaller one exactly if its date is not the later one.
abbrev pub ByDate : (ℕ → ℕ → Bool) → Type 0
ByDate before = (stored limit : ℕ) → before stored limit ≡ leb (stored / day) (limit / day)

-- A column that may be NULL.
unfoldable pub null_before : (ℕ → ℕ → Bool) → Option ℕ → ℕ → Bool
null_before before none limit = false
null_before before (some t) limit = before t limit

unfoldable pub is_finished : JobStatus → Bool
is_finished JobStatus.pending = false
is_finished JobStatus.running = false
is_finished JobStatus.retry = false
is_finished JobStatus.succeeded = true
is_finished JobStatus.failed = true

unfoldable pub is_settled : DeliveryStatus → Bool
is_settled DeliveryStatus.pending = false
is_settled DeliveryStatus.retry = false
is_settled DeliveryStatus.sent = true
is_settled DeliveryStatus.failed = true

-- The conditions of the deletes.
unfoldable pub evidence_expired : (ℕ → ℕ → Bool) → ℕ → Evidence → Bool
evidence_expired before now row = before row.expires_at now

unfoldable pub audit_expired : (ℕ → ℕ → Bool) → ℕ → AuditEvent → Bool
audit_expired before now row = before row.expires_at now

unfoldable pub job_expired : (ℕ → ℕ → Bool) → Settings → ℕ → Job → Bool
unfolding is_finished null_before
job_expired before settings now row =
    is_finished row.status
    && null_before before row.completed_at (now - days settings.job_retention_days)

unfoldable pub installation_expired : (ℕ → ℕ → Bool) → Settings → ℕ → TeamsInstallation → Bool
installation_expired before settings now row =
    not row.active
    && before row.last_seen_at (now - days settings.teams_installation_retention_days)

unfoldable pub delivery_expired : (ℕ → ℕ → Bool) → Settings → ℕ → Outbox → Bool
unfolding is_settled
delivery_expired before settings now row =
    is_settled row.status && before row.updated_at (now - days settings.audit_retention_days)

-- `delete from jobs where p`, with `ON DELETE CASCADE`: the evidence and the decisions of a deleted
-- job go too, and then the findings of a deleted decision.
unfoldable pub delete_jobs : (Job → Bool) → Db → Db
delete_jobs p db =
    let of_deleted_job : String → Bool = λ i. exists (λ job. p job && job.id == i) db.jobs in
    let of_deleted_decision : String → Bool =
      λ i. exists (λ decision. of_deleted_job decision.job_id && decision.id == i) db.decisions in
    record db {
      jobs = delete_where p db.jobs;
      evidence = delete_where (λ row. of_deleted_job row.job_id) db.evidence;
      decisions = delete_where (λ decision. of_deleted_job decision.job_id) db.decisions;
      findings = delete_where (λ finding. of_deleted_decision finding.decision_id) db.findings;
    }

-- The row counts that `purge` returns.
pub record PurgeCounts : Type 0 where
  pub evidence : ℕ
  pub audit_events : ℕ
  pub jobs : ℕ
  pub teams_installations : ℕ
  pub delivery_outbox : ℕ

-- The deletes, in the order of the source.
unfoldable pub deletes : (ℕ → ℕ → Bool) → Settings → ℕ → Db → Db
unfolding delete_jobs
deletes before settings now db =
    let db' : Db = record db {
      evidence = delete_where (evidence_expired before now) db.evidence;
      audit_events = delete_where (audit_expired before now) db.audit_events;
    } in
    let db'' : Db = delete_jobs (job_expired before settings now) db' in
    record db'' {
      teams_installations =
          delete_where (installation_expired before settings now) db''.teams_installations;
      delivery_outbox = delete_where (delivery_expired before settings now) db''.delivery_outbox;
    }

unfoldable pub purge_counts : (ℕ → ℕ → Bool) → Settings → ℕ → Db → PurgeCounts
purge_counts before settings now db = record {
  evidence = count_where (evidence_expired before now) db.evidence;
  audit_events = count_where (audit_expired before now) db.audit_events;
  jobs = count_where (job_expired before settings now) db.jobs;
  teams_installations =
      count_where (installation_expired before settings now) db.teams_installations;
  delivery_outbox = count_where (delivery_expired before settings now) db.delivery_outbox;
}

-- `dumps(counts)`.
unfoldable pub counts_json : PurgeCounts → Value
counts_json counts = dumps (
    dict (
      field "evidence" (number counts.evidence) (
        field "audit_events" (number counts.audit_events) (
          field "jobs" (number counts.jobs) (
            field "teams_installations" (number counts.teams_installations)
              (field "delivery_outbox" (number counts.delivery_outbox) no_fields))))))

-- `purge`: the counts, and the row that records them.
unfoldable pub purge : (ℕ → ℕ → Bool) → Settings → ℕ → Db → PurgeCounts × Db
unfolding deletes purge_counts counts_json
purge before settings now db =
    let counts : PurgeCounts = purge_counts before settings now db in
    (
      counts,
      record (deletes before settings now db) {
        retention_metadata =
            some (record { last_run_at = some now; details_json = counts_json counts });
      },
    )
