-- ===== src/Jobs/Lifecycle.antt =====
-- The invariant of the job table: distinct ids and keys, and columns that agree with the status.
use sprinter_oss.Prelude.{
  ℕ, ◌≡◌, refl, String, Bool, true, false, ◌||◌, Option, none, some, List, arith, All, Bool-cases,
  Option-cases, inl, inr, string_eq,
}
use sprinter_oss.Json.{Value}
use sprinter_oss.Config.{Settings}
use sprinter_oss.Models.{Draws, Job, JobStatus, Db}
use sprinter_oss.Models.Table.{update_where, insert, exists, find, delete_where}
use sprinter_oss.Models.Table.Laws.{All-update_where, All-insert, All-select}
use sprinter_oss.Models.Table.Keys.{
  Distinct, Distinct-update_where, Distinct-insert, Distinct-select,
}
use sprinter_oss.Completion.{completed}
use sprinter_oss.Retention.{is_finished}
use sprinter_oss.Jobs.{
  JobRequest, same_request, candidate, new_job, has_id, has_key, flush_job, create_job, is_waiting,
  claimed, still_waiting, claim_row, claim_job, is_running, is_abandoned, recover_abandoned_jobs,
  is_terminal_attempt, retried, retry_job,
}

abbrev pub is_some {ℓ} : {A : Type ℓ} → Option A → Bool
is_some none = false
is_some (some a) = true

-- The columns of a job agree with its status: `completed_at` is set exactly in the two final states,
-- a running job has a time of its claim, a job that succeeded has a result and no error, one that
-- failed has an error, and one that was never claimed has no attempts.
pub record IsConsistent (job : Job) : Type 0 where
  pub finished : is_finished job.status ≡ is_some job.completed_at
  pub running : job.status ≡ JobStatus.running → is_some job.claimed_at ≡ true
  pub result : job.status ≡ JobStatus.succeeded → is_some job.result_json ≡ true
  pub no_error : job.status ≡ JobStatus.succeeded → job.error_json ≡ none
  pub error : job.status ≡ JobStatus.failed → is_some job.error_json ≡ true
  pub untried : job.status ≡ JobStatus.pending → job.attempts ≡ 0

new_job-IsConsistent :
    (settings : Settings) (r : JobRequest) (d : Draws) → IsConsistent (new_job settings r d)
unfolding new_job is_finished
new_job-IsConsistent settings r d = ground arith

claimed-IsConsistent :
    (now : ℕ) (job : Job)
    → IsConsistent job
    → is_waiting job.status ≡ true
    → IsConsistent (claimed now job)
unfolding claimed is_finished is_waiting
claimed-IsConsistent now job c w = ground (arith, c.finished)

retried-IsConsistent :
    (terminal : Bool) (error : Value) (delay : ℕ) (d : Draws) (job : Job)
    → IsConsistent (retried terminal error delay d job)
unfolding retried is_finished
retried-IsConsistent true error delay d job = ground arith
retried-IsConsistent false error delay d job = ground arith

completed-IsConsistent :
    (result : Value) (now : ℕ) (job : Job) → IsConsistent (completed result now job)
unfolding completed is_finished
completed-IsConsistent result now job = ground arith

recovered-IsConsistent :
    (t u cutoff : ℕ) (job : Job)
    → IsConsistent job
    → is_abandoned cutoff job ≡ true
    → IsConsistent (record job { status = JobStatus.retry; available_at = t; updated_at = u })
unfolding is_finished is_abandoned is_running
recovered-IsConsistent t u cutoff job c e = ground (arith, c.finished)

pub record IsJobTable (jobs : List Job) : Type 0 where
  pub ids : Distinct (λ j. j.id) jobs
  pub keys : Distinct (λ j. j.idempotency_key) jobs
  pub rows : All IsConsistent jobs

-- An update of some rows that keeps their ids and keys, and their consistency.
pub update_where-IsJobTable :
    (p : Job → Bool) (f : Job → Job) (jobs : List Job)
    → ((job : Job) → (f job).id ≡ job.id)
    → ((job : Job) → (f job).idempotency_key ≡ job.idempotency_key)
    → ((job : Job) → IsConsistent job → p job ≡ true → IsConsistent (f job))
    → IsJobTable jobs
    → IsJobTable (update_where p f jobs)
update_where-IsJobTable p f jobs ids keys step t = record {
  ids = Distinct-update_where (λ j. j.id) p f ids jobs t.ids;
  keys = Distinct-update_where (λ j. j.idempotency_key) p f keys jobs t.keys;
  rows = All-update_where IsConsistent p f step jobs t.rows;
}

insert-IsJobTable :
    (job : Job) (jobs : List Job)
    → exists (has_id job.id) jobs ≡ false
    → exists (has_key job.idempotency_key) jobs ≡ false
    → IsConsistent job
    → IsJobTable jobs
    → IsJobTable (insert job jobs)
insert-IsJobTable job jobs name key c t = record {
  ids = Distinct-insert (λ j. j.id) job jobs t.ids name;
  keys = Distinct-insert (λ j. j.idempotency_key) job jobs t.keys key;
  rows = All-insert IsConsistent job jobs c t.rows;
}

flush_job-IsJobTable :
    (job : Job) (db : Db)
    → IsConsistent job
    → IsJobTable db.jobs
    → IsJobTable (flush_job job db).1.jobs
unfolding flush_job
flush_job-IsJobTable job db c t =
    elim (Bool-cases
      (exists (has_id job.id) db.jobs || exists (has_key job.idempotency_key) db.jobs)) [
        | inl e ↦ elim (Option-cases (find (has_key job.idempotency_key) db.jobs)) [
          | inl f ↦ rw (e, f) t
          | inr (x, f) ↦ rw (e, f) t
        ]
        | inr e ↦ rw e (insert-IsJobTable job db.jobs (ground arith) (ground arith) c t)
      ]

pub create_job-IsJobTable :
    (settings : Settings) (r : JobRequest) (d : Draws) (seen db : Db)
    → IsJobTable db.jobs
    → IsJobTable (create_job settings r d seen db).1.jobs
unfolding create_job
create_job-IsJobTable settings r d seen db t =
    elim (Option-cases (find (has_key r.idempotency_key) seen.jobs)) [
      | inl f ↦ rw (f, create_job) (flush_job-IsJobTable _ db (new_job-IsConsistent settings r d) t)
      | inr (x, f) ↦ elim (Bool-cases (same_request x r)) [
        | inl e ↦ rw (f, create_job, e) t
        | inr e ↦ rw (f, create_job, e) t
      ]
    ]

pub claim_job-IsJobTable :
    (now : ℕ) (seen db : Db) → IsJobTable db.jobs → IsJobTable (claim_job now seen db).1.jobs
unfolding claim_job claim_row claimed
claim_job-IsJobTable now seen db t = elim (Option-cases (candidate now seen)) [
  | inl f ↦ rw (f, claim_job) t
  | inr (c, f) ↦
      rw (f, claim_job)
        (update_where-IsJobTable (still_waiting c.id) (claimed now) db.jobs (λ j. refl) (λ j. refl)
          (λ j k e. claimed-IsConsistent now j k (ground arith)) t)
]

pub recover_abandoned_jobs-IsJobTable :
    (older_than_seconds : ℕ) (d : Draws) (db : Db)
    → IsJobTable db.jobs
    → IsJobTable (recover_abandoned_jobs older_than_seconds d db).1.jobs
unfolding recover_abandoned_jobs
recover_abandoned_jobs-IsJobTable older_than_seconds d db t =
    update_where-IsJobTable _ _ db.jobs (λ j. refl) (λ j. refl)
      (λ j c e. recovered-IsConsistent (d.clock 1) (d.clock 2) _ j c e) t

pub retry_job-IsJobTable :
    (job : Job) (error : Value) (delay : ℕ) (d : Draws) (db : Db)
    → IsJobTable db.jobs
    → IsJobTable (retry_job job error delay d db).jobs
unfolding retry_job retried
retry_job-IsJobTable job error delay d db t =
    update_where-IsJobTable _ _ db.jobs (λ j. refl) (λ j. refl)
      (λ j c e. retried-IsConsistent (is_terminal_attempt job) error delay d j) t

pub completed-IsJobTable :
    (i : String) (result : Value) (now : ℕ) (jobs : List Job)
    → IsJobTable jobs
    → IsJobTable (update_where (has_id i) (completed result now) jobs)
unfolding completed
completed-IsJobTable i result now jobs t =
    update_where-IsJobTable _ _ jobs (λ j. refl) (λ j. refl)
      (λ j c e. completed-IsConsistent result now j) t

pub delete_where-IsJobTable :
    (p : Job → Bool) (jobs : List Job) → IsJobTable jobs → IsJobTable (delete_where p jobs)
unfolding delete_where
delete_where-IsJobTable p jobs t = record {
  ids = Distinct-select (λ j. j.id) _ jobs t.ids;
  keys = Distinct-select (λ j. j.idempotency_key) _ jobs t.keys;
  rows = All-select IsConsistent _ jobs t.rows;
}
