-- ===== src/Api/Handlers/Refusals.antt =====
-- What a request that src/sprinter/api.py refuses leaves alone.
use sprinter_oss.Prelude.{
  ℕ, ◌≡◌, ◌≢◌, ◌⊎◌, refl, ap, String, Bool, Option, arith, Option-cases, inl, inr, string_eq,
}
use sprinter_oss.Json.{Value}
use sprinter_oss.Errors.{Exception, Result, ok, err, Result-cases}
use sprinter_oss.Config.{Settings}
use sprinter_oss.Models.{Draws, Db, Job}
use sprinter_oss.Models.Table.{find}
use sprinter_oss.Auth.{Principal, Request, Limiter, Access, granted, denied, require_scope}
use sprinter_oss.Jobs.{JobRequest, create_job, flush_job, new_job, has_key}
use sprinter_oss.Engine.{ReviewJobRequest, submit_review, job_request}
use sprinter_oss.Engine.Process.Frames.{record_audit-jobs}
use sprinter_oss.Api.{Response, Server, Context, answer, record_call, with_access, guarded}
use sprinter_oss.Api.Handlers.{
  accepted, accepted_result, submitted, checked_submission, create_review_job,
}

flush_job-err :
    (job : Job) (db : Db) (e : Exception) → (flush_job job db).0 ≡ err e → (flush_job job db).1 ≡ db
unfolding flush_job
flush_job-err job db e h = ground (arith, h)

create_job-err :
    (settings : Settings) (r : JobRequest) (d : Draws) (seen db : Db) (e : Exception)
    → (create_job settings r d seen db).0 ≡ err e
    → (create_job settings r d seen db).1 ≡ db
unfolding create_job
create_job-err settings r d seen db e h =
    elim (Option-cases (find (has_key r.idempotency_key) seen.jobs)) [
      | inl f ↦
          rw (f, create_job) (flush_job-err (new_job settings r d) db e (rw (f, create_job) at h))
      | inr (x, f) ↦ ground (arith, f)
    ]

submit_review-err :
    (context : Context) (settings : Settings) (request : ReviewJobRequest) (key actor : String)
    (seen db : Db) (e : Exception)
    → (submit_review context.services settings request key actor context.draws seen db).0 ≡ err e
    → (submit_review context.services settings request key actor context.draws seen db).1 ≡ db
unfolding submit_review
submit_review-err context settings request key actor seen db e h =
    let r : JobRequest = job_request context.services settings request key in
    elim (Result-cases (create_job settings r (context.draws 0) seen db).0) [
      | inl ((job, created), f) ↦ absurd (ground (arith, f, h))
      | inr (x, f) ↦ rw (f, submit_review) (create_job-err settings r (context.draws 0) seen db x f)
    ]

accepted_result_cases :
    (message : Exception → String) (r : Result (Job × Bool) × Db) (db : Db)
    → ((e : Exception) → r.0 ≡ err e → r.1 ≡ db)
    → ((answer message (accepted_result r).0).status ≡ 202) ⊎ ((accepted_result r).1 ≡ db)
unfolding accepted_result answer accepted
accepted_result_cases message (ok (job, created), db1) db same = inl refl
accepted_result_cases message (err e, db1) db same = inr (same e refl)

-- Only an accepted submission is answered with 202, and another leaves the database as it was.
submitted_cases :
    (context : Context) (settings : Settings) (request : Result (ReviewJobRequest × String))
    (seen : Db) (principal : Principal) (db : Db)
    → ((answer context.services.message
          (submitted context settings request seen principal db).0).status
        ≡ 202)
      ⊎ ((submitted context settings request seen principal db).1 ≡ db)
unfolding submitted
submitted_cases context settings (err e) seen principal db = inr refl
submitted_cases context settings (ok (request, key)) seen principal db =
    accepted_result_cases context.services.message
      (submit_review context.services settings request key principal.name context.draws seen db) db
      (submit_review-err context settings request key principal.name seen db)

with_access-jobs :
    (context : Context) (settings : Settings) (access : Access × Limiter)
    (handler : Principal → Db → Result Response × Db) (db : Db)
    → ((principal : Principal)
        → ((answer context.services.message (handler principal db).0).status ≡ 202)
          ⊎ ((handler principal db).1 ≡ db))
    → ((with_access context settings access handler db).0.status ≢ 202)
    → (with_access context settings access handler db).1.db.jobs ≡ db.jobs
unfolding with_access record_call
with_access-jobs context settings (denied status text call, limiter) handler db cases n =
    record_audit-jobs context.services settings call.event_type call.actor call.payload
      (context.draws 0) (context.draws 1) db
with_access-jobs context settings (granted principal, limiter) handler db cases n =
    elim (cases principal) [ inl e ↦ absurd (n e) | inr e ↦ ap (λ (x : Db). x.jobs) e ]

-- A submission that is not answered with 202, whether it was refused without its token or scope, by
-- the rate limit, by the schema or the header, or by the queue, leaves the jobs as they were.
pub create_review_job-refused :
    (context : Context) (settings : Settings) (as_int : Value → Option ℕ) (request : Request)
    (body : Value) (header : Option String) (seen : Db) (server : Server)
    → ((create_review_job context settings as_int request body header seen server).0.status ≢ 202)
    → (create_review_job context settings as_int request body header seen server).1.db.jobs
      ≡ server.db.jobs
unfolding create_review_job guarded
create_review_job-refused context settings as_int request body header seen server =
    with_access-jobs context settings
      (require_scope context.services.lower context.verify settings.rate_limit_per_minute
        context.records "reviews:write" request context.now server.limiter)
      (submitted context settings (checked_submission as_int body header) seen) server.db
      (λ principal.
        submitted_cases context settings (checked_submission as_int body header) seen principal
          server.db)
