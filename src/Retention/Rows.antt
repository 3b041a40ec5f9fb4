-- ===== src/Retention/Rows.antt =====
-- Which rows `purge` of src/sprinter/db.py leaves.
use mathlib.Core.Path.{fun_ext}
use sprinter_oss.Prelude.{
  Option-cases, ap, ℕ, ◌-◌, ◌/◌, ◌<◌, ◌≡◌, refl, ◌∙◌, String, Bool, true, false, not, ◌&&◌, Option,
  none, some, arith, leb, ltb, if◌then◌else◌, All, All-map, inl, inr, ◌==◌, string_eq,
}
use sprinter_oss.Config.{Settings}
use sprinter_oss.Models.{JobStatus, pending, running, retry, succeeded, failed, Job, Db, day, days}
use sprinter_oss.Models.Table.{delete_where, find, select}
use sprinter_oss.Models.Table.Laws.{delete_where_holds}
use sprinter_oss.Models.Table.Keys.{Distinct, find-select}
use sprinter_oss.Jobs.{get_job}
use sprinter_oss.Retention.{
  Exact, ByDate, is_finished, null_before, job_expired, audit_expired, delete_jobs, deletes, purge,
}

if_not {ℓ} : {A : Type ℓ} (x y : A) (b : Bool) → (if not b then x else y) ≡ (if b then y else x)
if_not x y true = refl
if_not x y false = refl

-- Is a job finished, and on a date that is not later than the one of the limit?
unfoldable pub finished_by : ℕ → JobStatus → Option ℕ → Bool
finished_by limit succeeded (some t) = leb (t / day) (limit / day)
finished_by limit succeeded none = false
finished_by limit failed (some t) = leb (t / day) (limit / day)
finished_by limit failed none = false
finished_by limit pending completed_at = false
finished_by limit running completed_at = false
finished_by limit retry completed_at = false

finished_by_lem :
    (before : ℕ → ℕ → Bool) (limit : ℕ) (status : JobStatus) (completed_at : Option ℕ)
    → ByDate before
    → (is_finished status && null_before before completed_at limit)
      ≡ finished_by limit status completed_at
unfolding finished_by is_finished null_before
finished_by_lem before limit succeeded (some t) by_date = by_date t limit
finished_by_lem before limit succeeded none by_date = refl
finished_by_lem before limit failed (some t) by_date = by_date t limit
finished_by_lem before limit failed none by_date = refl
finished_by_lem before limit pending completed_at by_date = refl
finished_by_lem before limit running completed_at by_date = refl
finished_by_lem before limit retry completed_at by_date = refl

job_expired-finished_by :
    (before : ℕ → ℕ → Bool) (settings : Settings) (now : ℕ) (job : Job)
    → ByDate before
    → job_expired before settings now job
      ≡ finished_by (now - days settings.job_retention_days) job.status job.completed_at
unfolding job_expired
job_expired-finished_by before settings now job =
    finished_by_lem before (now - days settings.job_retention_days) job.status job.completed_at

-- Where the driver compares by date: a purge deletes the job of an id exactly if it has succeeded or
-- failed, and was completed on a date that is not later than the one that lies the job retention
-- before the purge; it leaves the job unchanged otherwise. The ids are assumed distinct.
pub get_job-purge :
    (before : ℕ → ℕ → Bool) (settings : Settings) (now : ℕ) (db : Db) (i : String)
    → ByDate before
    → Distinct (λ j. j.id) db.jobs
    → get_job i (purge before settings now db).1 ≡ elim (get_job i db) [
      | none ↦ none
      | some job ↦
          if finished_by (now - days settings.job_retention_days) job.status job.completed_at
          then none
          else some job
    ]
unfolding get_job purge deletes delete_jobs delete_where
get_job-purge before settings now db i by_date d =
    find-select (λ j. j.id) i (λ j. not (job_expired before settings now j)) db.jobs d
    ∙ elim (Option-cases (find (λ j. j.id == i) db.jobs)) [
      | inl e ↦ rw e
      | inr (job, e) ↦
          rw (e, job_expired-finished_by before settings now job by_date)
            (if_not (some job) none
              (finished_by (now - days settings.job_retention_days) job.status job.completed_at))
    ]

-- Where the database compares instants, a purge leaves an audit event exactly as long as it has not
-- expired.
pub audit-purge-Exact :
    (before : ℕ → ℕ → Bool) (settings : Settings) (now : ℕ) (db : Db)
    → Exact before
    → (purge before settings now db).1.audit_events
      ≡ select (λ e. leb now e.expires_at) db.audit_events
unfolding purge deletes delete_jobs delete_where audit_expired
audit-purge-Exact before settings now db exact =
    ap (λ p. select p db.audit_events) (fun_ext (λ e. ground (arith, exact e.expires_at now)))

-- Where the driver compares by date, an audit event is left only if it expires on a later date: one
-- that expires later on the day of the purge is deleted before its time.
pub audit-purge-ByDate :
    (before : ℕ → ℕ → Bool) (settings : Settings) (now : ℕ) (db : Db)
    → ByDate before
    → ((purge before settings now db).1.audit_events
        ≡ select (λ e. ltb (now / day) (e.expires_at / day)) db.audit_events)
      × All (λ e. now / day < e.expires_at / day) (purge before settings now db).1.audit_events
unfolding purge deletes delete_jobs delete_where audit_expired
audit-purge-ByDate before settings now db by_date = (
  ap (λ p. select p db.audit_events) (fun_ext (λ e. ground (arith, by_date e.expires_at now))),
  All-map _ (λ e k. ground (arith, by_date e.expires_at now)) _
      (delete_where_holds (audit_expired before now) db.audit_events),
)
