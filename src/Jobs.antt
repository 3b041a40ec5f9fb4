-- ===== src/Jobs.antt =====
-- The job queue of src/sprinter/db.py: `create_job`, `get_job`, `claim_job`,
-- `recover_abandoned_jobs`, `retry_job` and `complete_job`. Each is one transaction: it takes what
-- the clock and uuid4 return and the database, and gives its result and the database it commits.
--
-- `create_job` and `claim_job` first read and then write, and sqlite3 begins the transaction at the
-- write, so another process may commit in between: they take the database twice, as it was `seen`
-- by the select and as the write finds it.
pub mod Claims
pub mod Recovery
pub mod Lifecycle
pub mod Submission
pub mod Refinement
use sprinter_oss.Prelude.{
  ℕ, ◌+◌, ◌-◌, String, Bool, true, false, ◌&&◌, ◌||◌, Option, none, some, ◌==◌, string_eq, nat_eq,
  ltb, leb, if◌then◌else◌, clip,
}
use sprinter_oss.Json.{Value, value_eq, dumps}
use sprinter_oss.Errors.{Result, ok, err, idempotency_conflict, integrity_error}
use sprinter_oss.Config.{Settings}
use sprinter_oss.Models.{
  Draws, JobStatus, pending, running, retry, succeeded, failed, Job, Db, new_id, seconds,
}
use sprinter_oss.Models.Table.{
  select, find, update_where, count_where, insert, exists, order_by, first,
}

-- The arguments of `create_job`.
pub record JobRequest : Type 0 where
  pub idempotency_key : String
  pub selector_type : String
  pub selector : Value
  pub source : String
  pub summary : Value
  pub row_limit : ℕ

-- `actual == expected`, the comparison with the job that has the key already.
unfoldable pub same_request : Job → JobRequest → Bool
same_request job r =
    job.selector_type == r.selector_type
    && (job.selector_json == dumps r.selector
        && (job.source == clip 128 r.source
            && (job.summary_json == dumps r.summary && job.row_limit == r.row_limit)))

-- The row that `create_job` inserts, with the defaults of the columns.
unfoldable pub new_job : Settings → JobRequest → Draws → Job
new_job settings r d = record {
  id = new_id "job" (d.uuid 0);
  idempotency_key = r.idempotency_key;
  selector_type = r.selector_type;
  selector_json = dumps r.selector;
  source = clip 128 r.source;
  summary_json = dumps r.summary;
  row_limit = r.row_limit;
  status = pending;
  attempts = 0;
  max_attempts = settings.job_max_attempts;
  available_at = d.clock 0;
  claimed_at = none;
  completed_at = none;
  result_json = none;
  error_json = none;
  created_at = d.clock 1;
  updated_at = d.clock 2;
}

abbrev pub has_key : String → Job → Bool
has_key key job = job.idempotency_key == key

abbrev pub has_id : String → Job → Bool
has_id i job = job.id == i

-- `get_job`.
unfoldable pub get_job : String → Db → Option Job
get_job i db = find (has_id i) db.jobs

-- The flush of the new row: the keys are unique, and after an IntegrityError the job that won the
-- race is returned.
unfoldable pub flush_job : Job → Db → Result (Job × Bool) × Db
flush_job job db =
    if exists (has_id job.id) db.jobs || exists (has_key job.idempotency_key) db.jobs
    then elim (find (has_key job.idempotency_key) db.jobs) [
      | some existing ↦ (ok (existing, false), db)
      | none ↦ (err integrity_error, db)
    ]
    else (ok (job, true), record db { jobs = insert job db.jobs })

-- `create_job`.
unfoldable pub create_job : Settings → JobRequest → Draws → Db → Db → Result (Job × Bool) × Db
unfolding flush_job
create_job settings r d seen db = elim (find (has_key r.idempotency_key) seen.jobs) [
  | some existing ↦
      if same_request existing r then (ok (existing, false), db) else (err idempotency_conflict, db)
  | none ↦ flush_job (new_job settings r d) db
]

-- `Job.status.in_([pending, retry])`.
unfoldable pub is_waiting : JobStatus → Bool
is_waiting pending = true
is_waiting running = false
is_waiting retry = true
is_waiting succeeded = false
is_waiting failed = false

-- The condition of the select of `claim_job`.
unfoldable pub is_claimable : ℕ → Job → Bool
is_claimable now job = is_waiting job.status && leb job.available_at now

-- The job that the select returns: the oldest that is claimable.
unfoldable pub candidate : ℕ → Db → Option Job
unfolding is_claimable
candidate now db = first (order_by (λ job. job.created_at) (select (is_claimable now) db.jobs))

-- The values that the guarded update of `claim_job` writes.
unfoldable pub claimed : ℕ → Job → Job
claimed now job = record job {
  status = running;
  attempts = job.attempts + 1;
  claimed_at = some now;
  updated_at = now;
}

-- The condition of that update: the row, if it still waits.
abbrev pub still_waiting : String → Job → Bool
still_waiting i job = has_id i job && is_waiting job.status

-- The update and the test of its row count. The answer is the session's copy of the candidate, as the
-- select loaded it, with the values of the update; the row that the update writes is the stored one.
unfoldable pub claim_row : ℕ → Job → Db → Option Job × Db
claim_row now c db =
    let db' : Db = record db { jobs = update_where (still_waiting c.id) (claimed now) db.jobs } in
    ((if count_where (still_waiting c.id) db.jobs == 1 then some (claimed now c) else none), db')

-- `claim_job`.
unfoldable pub claim_job : ℕ → Db → Db → Option Job × Db
claim_job now seen db = elim (candidate now seen) [
  | none ↦ (none, db)
  | some job ↦ claim_row now job db
]

unfoldable pub is_running : JobStatus → Bool
is_running running = true
is_running pending = false
is_running retry = false
is_running succeeded = false
is_running failed = false

-- A column that may be NULL, compared with `<`.
unfoldable pub before : Option ℕ → ℕ → Bool
before none bound = false
before (some t) bound = ltb t bound

-- The condition of `recover_abandoned_jobs`.
unfoldable pub is_abandoned : ℕ → Job → Bool
is_abandoned cutoff job = is_running job.status && before job.claimed_at cutoff

-- `recover_abandoned_jobs(older_than_seconds)`: the number of jobs that it put back.
unfoldable pub recover_abandoned_jobs : ℕ → Draws → Db → ℕ × Db
recover_abandoned_jobs older_than_seconds d db =
    let cutoff : ℕ = d.clock 0 - seconds older_than_seconds in
    (
      count_where (is_abandoned cutoff) db.jobs,
      record db {
        jobs =
            update_where (is_abandoned cutoff)
              (λ job. record job {
                status = retry;
                available_at = d.clock 1;
                updated_at = d.clock 2;
              })
              db.jobs;
      },
    )

-- `job.attempts >= job.max_attempts`, on the copy of the job that the worker holds.
unfoldable pub is_terminal_attempt : Job → Bool
is_terminal_attempt job = leb job.max_attempts job.attempts

-- The values that `retry_job` writes.
unfoldable pub retried : Bool → Value → ℕ → Draws → Job → Job
retried terminal error delay_seconds d job = record job {
  status = (if terminal then failed else retry);
  error_json = some (dumps error);
  available_at = d.clock 0 + seconds delay_seconds;
  completed_at = (if terminal then some (d.clock 1) else none);
  updated_at = (if terminal then d.clock 2 else d.clock 1);
}

-- `retry_job`.
unfoldable pub retry_job : Job → Value → ℕ → Draws → Db → Db
retry_job job error delay_seconds d db = record db {
  jobs =
      update_where (has_id job.id) (retried (is_terminal_attempt job) error delay_seconds d)
        db.jobs;
}
