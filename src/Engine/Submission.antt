-- ===== src/Engine/Submission.antt =====
-- What `submit_review` of src/sprinter/engine.py stores.
use sprinter_oss.Prelude.{subst, sym, ℕ, ◌≤◌, ◌≡◌, String, Bool, true, arith}
use sprinter_oss.Json.{dict}
use sprinter_oss.Errors.{ok}
use sprinter_oss.Config.{Settings, redaction_keys}
use sprinter_oss.Models.{Draws, Job, Db}
use sprinter_oss.Redaction.{is_secret, IsRedacted}
use sprinter_oss.Redaction.Laws.{dumps-redact-IsRedacted}
use sprinter_oss.Jobs.{JobRequest, new_job, flush_job, create_job}
use sprinter_oss.Engine.{Services, ReviewJobRequest, redact_for, job_request, submit_review}

-- What `submit_review` may store of a request.
abbrev pub IsBounded : Services → Settings → ReviewJobRequest → Job → Type 0
IsBounded s settings request job =
    (job.row_limit ≤ request.limit)
    × (job.row_limit ≤ settings.prompt_max_rows)
    × IsRedacted (is_secret s.lower (redaction_keys s.lower settings)) job.summary_json

new_job-IsBounded :
    (s : Services) (settings : Settings) (request : ReviewJobRequest) (key : String) (d : Draws)
    → IsBounded s settings request (new_job settings (job_request s settings request key) d)
unfolding new_job job_request redact_for
new_job-IsBounded s settings request key d =
    (omega arith, omega arith, dumps-redact-IsRedacted _ (dict request.summary))

create_job_new :
    (settings : Settings) (r : JobRequest) (d : Draws) (seen db : Db) (job : Job)
    → (create_job settings r d seen db).0 ≡ ok (job, true)
    → job ≡ new_job settings r d
unfolding create_job flush_job
create_job_new settings r d seen db job e = ground (arith, e)

submit_review_ok :
    (s : Services) (settings : Settings) (request : ReviewJobRequest) (key actor : String)
    (w : ℕ → Draws) (seen db : Db) (a : Job × Bool)
    → (submit_review s settings request key actor w seen db).0 ≡ ok a
    → (create_job settings (job_request s settings request key) (w 0) seen db).0 ≡ ok a
unfolding submit_review
submit_review_ok s settings request key actor w seen db a e = ground (arith, e)

-- A job that `submit_review` answers as created has a row limit of at most that of the request and of
-- the settings, and in its stored summary every secret key, at any depth, has the mark as its value.
pub submit_review-IsBounded :
    (s : Services) (settings : Settings) (request : ReviewJobRequest) (key actor : String)
    (w : ℕ → Draws) (seen db : Db) (job : Job)
    → (submit_review s settings request key actor w seen db).0 ≡ ok (job, true)
    → IsBounded s settings request job
submit_review-IsBounded s settings request key actor w seen db job e =
    let made : job ≡ new_job settings (job_request s settings request key) (w 0) =
      create_job_new settings _ (w 0) seen db job
        (submit_review_ok s settings request key actor w seen db (job, true) e) in
    subst (IsBounded s settings request) (sym made) (new_job-IsBounded s settings request key (w 0))
