-- ===== src/Jobs/Recovery.antt =====
-- What `recover_abandoned_jobs` of src/sprinter/db.py does to one job.
use mathlib.Core.Option
use mathlib.Core.Path.{fun_ext}
use sprinter_oss.Prelude.{
  ℕ, ◌-◌, ◌≡◌, ◌∙◌, ap, refl, String, Bool, false, Option, none, some, ltb, ◌&&◌, if◌then◌else◌,
}
use sprinter_oss.Models.{
  Draws, JobStatus, pending, running, retry, succeeded, failed, Job, Db, seconds,
}
use sprinter_oss.Models.Table.{count_where}
use sprinter_oss.Models.Table.Laws.{find-update_where}
use sprinter_oss.Jobs.{has_id, get_job, is_abandoned, recover_abandoned_jobs, is_running, before}

-- Was a job left behind by a worker: it is running, and was claimed before the cutoff?
unfoldable pub left_behind : ℕ → JobStatus → Option ℕ → Bool
left_behind cutoff running (some t) = ltb t cutoff
left_behind cutoff running none = false
left_behind cutoff pending claimed_at = false
left_behind cutoff retry claimed_at = false
left_behind cutoff succeeded claimed_at = false
left_behind cutoff failed claimed_at = false

left_behind_lem :
    (cutoff : ℕ) (status : JobStatus) (claimed_at : Option ℕ)
    → (is_running status && before claimed_at cutoff) ≡ left_behind cutoff status claimed_at
unfolding left_behind is_running before
left_behind_lem cutoff running (some t) = refl
left_behind_lem cutoff running none = refl
left_behind_lem cutoff pending claimed_at = refl
left_behind_lem cutoff retry claimed_at = refl
left_behind_lem cutoff succeeded claimed_at = refl
left_behind_lem cutoff failed claimed_at = refl

is_abandoned-left_behind :
    (cutoff : ℕ) (job : Job)
    → is_abandoned cutoff job ≡ left_behind cutoff job.status job.claimed_at
unfolding is_abandoned
is_abandoned-left_behind cutoff job = left_behind_lem cutoff job.status job.claimed_at

-- A job that is running since before the cutoff waits again, at once and with the attempts that it
-- has, whatever its limit of attempts is; a job that is not running, that has no time of a claim, or
-- that was claimed at the cutoff or later, is left as it was. The number that is answered is that of
-- the jobs that were running since before the cutoff.
pub get_job-recover_abandoned_jobs :
    (older_than_seconds : ℕ) (d : Draws) (db : Db) (i : String) (job : Job)
    → get_job i db ≡ some job
    → let cutoff = d.clock 0 - seconds older_than_seconds in
      (get_job i (recover_abandoned_jobs older_than_seconds d db).1
        ≡ some (
            if left_behind cutoff job.status job.claimed_at
            then record job { status = retry; available_at = d.clock 1; updated_at = d.clock 2 }
            else job))
      × ((recover_abandoned_jobs older_than_seconds d db).0
          ≡ count_where (λ row. left_behind cutoff row.status row.claimed_at) db.jobs)
unfolding get_job recover_abandoned_jobs
get_job-recover_abandoned_jobs older_than_seconds d db i job e =
    let cutoff : ℕ = d.clock 0 - seconds older_than_seconds in
    (
      find-update_where (has_id i) (is_abandoned cutoff) _ (λ j. refl) db.jobs
          ∙ ap (Option.map _) e
          ∙ rw (is_abandoned-left_behind cutoff job) refl,
      ap (λ p. count_where p db.jobs) (fun_ext (is_abandoned-left_behind cutoff)),
    )
