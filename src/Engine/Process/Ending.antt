-- ===== src/Engine/Process/Ending.antt =====
-- What becomes of the job that `process_next_job` of src/sprinter/engine.py takes.
use mathlib.Core.Bool.{false≢true}
use sprinter_oss.Prelude.{
  ◌≡◌, refl, sym, ◌∙◌, ap, String, Bool, true, false, some, List, arith, string_eq, eq_refl, inl,
  inr, ◌⊎◌, Bool-cases,
}
use sprinter_oss.Errors.{Exception, Result, ok, err}
use sprinter_oss.Config.{Settings}
use sprinter_oss.Models.{Draws, JobStatus, new_id, Job, Db}
use sprinter_oss.Models.Table.{find}
use sprinter_oss.Models.Table.Keys.{Distinct}
use sprinter_oss.Models.Table.Laws.{find-exists, find-update_where}
use sprinter_oss.Jobs.{has_id, get_job, claim_job, retry_job, retried, is_terminal_attempt}
use sprinter_oss.Jobs.Claims.{claim_job_stored}
use sprinter_oss.Completion.{EvidenceItem, ReviewDecision, ModelIdentity, complete_job}
use sprinter_oss.Engine.{Services}
use sprinter_oss.Engine.Process.{
  Outcome, write_outcome, Moments, Processed, nothing, reviewed, given_back, attempt, is_caught,
  put_back, settle, process_next_job, retry_delay, error_value, stored_status, review_job,
}
use sprinter_oss.Engine.Process.Frames.{
  record_audit-jobs, announce-jobs, get_job-complete_job, get_job_of_jobs, announce_err,
}

-- The row of the job after the body of the `try`: an exception that is caught comes before any write.
abbrev Tried : Job → Job → Result Bool → Type 0
Tried job after (ok b) = after.status ≡ JobStatus.succeeded
Tried job after (err e) =
    (after ≡ job) ⊎ ((after.status ≡ JobStatus.succeeded) × (is_caught e ≡ false))

announced-Tried :
    (job after : Job) (r : Result Bool)
    → after.status ≡ JobStatus.succeeded
    → ((e : Exception) → r ≡ err e → is_caught e ≡ false)
    → Tried job after r
announced-Tried job after (ok b) h f = h
announced-Tried job after (err e) h f = inr (h, f e refl)

complete_job_ok :
    (settings : Settings) (job : Job) (decision : ReviewDecision) (evidence : List EvidenceItem)
    (model : ModelIdentity) (d : Draws) (db : Db)
    → get_job job.id db ≡ some job
    → (complete_job settings job decision evidence model d db).0 ≡ ok (new_id "decision" (d.uuid 0))
unfolding get_job complete_job
complete_job_ok settings job decision evidence model d db e =
    ground (arith, find-exists (has_id job.id) db.jobs job e)

write_outcome-Tried :
    (s : Services) (settings : Settings) (job : Job) (m : Moments) (db : Db) (r : Result Outcome)
    → get_job job.id db ≡ some job
    → (after : Job) × (get_job job.id (write_outcome s settings job m db r).1 ≡ some after)
      × Tried job after (write_outcome s settings job m db r).0
unfolding write_outcome
write_outcome-Tried s settings job m db (err e) g = (job, g, inl refl)
write_outcome-Tried s settings job m db (ok o) g =
    let (after, got, status) =
      get_job-complete_job settings job o.decision o.evidence o.model m.complete db g in
    rw (complete_job_ok settings job o.decision o.evidence o.model m.complete db g, write_outcome)
      (
        after,
        get_job_of_jobs job.id _ _ (announce-jobs s settings job o _ m _) ∙ got,
        announced-Tried job after _ status (announce_err s settings job o _ m _),
      )

-- What becomes of the row of the job, for each way in which `process_next_job` ends.
abbrev pub Ends : Moments → Job → Job → Result Processed → Type 0
Ends m job after (ok nothing) = ⊥
Ends m job after (ok (reviewed i)) = (i ≡ job.id) × (after.status ≡ JobStatus.succeeded)
Ends m job after (ok (given_back i status error)) =
    (i ≡ job.id)
    × (status ≡ after.status)
    × (after ≡ retried (is_terminal_attempt job) error (retry_delay job) m.retry job)
Ends m job after (err e) =
    (is_caught e ≡ false) × ((after ≡ job) ⊎ (after.status ≡ JobStatus.succeeded))

get_job-put_back :
    (s : Services) (settings : Settings) (job : Job) (e : Exception) (m : Moments) (db : Db)
    → get_job job.id db ≡ some job
    → get_job job.id (put_back s settings job e m db)
      ≡ some (retried (is_terminal_attempt job) (error_value s e) (retry_delay job) m.retry job)
unfolding put_back get_job retry_job
get_job-put_back s settings job e m db g =
    ap (find (has_id job.id))
      (record_audit-jobs s settings "review_job.retry" "worker" _ m.audit m.audit_copy _)
    ∙ ground (
      arith,
      eq_refl job.id,
      find-update_where (has_id job.id) (has_id job.id)
          (retried (is_terminal_attempt job) (error_value s e) (retry_delay job) m.retry)
          (λ j. unfold retried in refl) db.jobs,
    )

stored_status_lem :
    (i : String) (db : Db) (end : Job) → get_job i db ≡ some end → stored_status i db ≡ end.status
unfolding stored_status
stored_status_lem i db end e = ground (arith, e)

stored_or_succeeded :
    (job after : Job) (e : Exception)
    → Tried job after (err e)
    → (after ≡ job) ⊎ (after.status ≡ JobStatus.succeeded)
stored_or_succeeded job after e (inl p) = inl p
stored_or_succeeded job after e (inr p) = inr p.0

unchanged :
    (job after : Job) (e : Exception) → is_caught e ≡ true → Tried job after (err e) → after ≡ job
unchanged job after e c (inl p) = p
unchanged job after e c (inr p) = absurd (false≢true (sym p.1 ∙ c))

settle-Ends :
    (s : Services) (settings : Settings) (job after : Job) (m : Moments) (db : Db) (r : Result Bool)
    → get_job job.id db ≡ some after
    → Tried job after r
    → (end : Job) × (get_job job.id (settle s settings job m db r).1 ≡ some end)
      × Ends m job end (settle s settings job m db r).0
unfolding settle
settle-Ends s settings job after m db (ok sent) g t = (after, g, (refl, t))
settle-Ends s settings job after m db (err e) g t = elim (Bool-cases (is_caught e)) [
  | inr c ↦ rw c (after, g, (c, stored_or_succeeded job after e t))
  | inl c ↦
      let back = get_job-put_back s settings job e m db (g ∙ ap some (unchanged job after e c t)) in
      rw c (_, back, (refl, stored_status_lem job.id _ _ back, refl))
]

-- A job that `process_next_job` takes ends in one of three ways. It is answered as reviewed, and is
-- stored as succeeded. Or it is answered as given back, and the values of `retry_job` are stored, with
-- the delay of its attempt, the answered status among them. Or an exception leaves the function that
-- its `except` does not name: then the job is stored as it was claimed, or as succeeded. The ids are
-- assumed distinct.
pub process_next_job-Ends :
    (s : Services) (settings : Settings) (m : Moments) (db : Db) (job : Job)
    → Distinct (λ j. j.id) db.jobs
    → (claim_job (m.claim.clock 0) db db).0 ≡ some job
    → (end : Job) × (get_job job.id (process_next_job s settings m db).1 ≡ some end)
      × Ends m job end (process_next_job s settings m db).0
unfolding process_next_job attempt
process_next_job-Ends s settings m db job d e =
    let taken = claim_job_stored (m.claim.clock 0) db job d e in
    let (after, got, tried) =
      write_outcome-Tried s settings job m (claim_job (m.claim.clock 0) db db).1
        (review_job s settings job) taken in
    rw (e, process_next_job) (settle-Ends s settings job after m _ _ got tried)
