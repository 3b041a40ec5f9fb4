-- ===== src/Engine/Process/Frames.antt =====
-- What the steps after the claim leave alone in src/sprinter/engine.py, and the row that `complete_job` writes.
use sprinter_oss.Prelude.{
  ℕ, ◌≡◌, refl, ap, String, false, some, List, [], ◌∷◌, arith, string_eq, eq_refl, inl, inr,
  Bool-cases,
}
use sprinter_oss.Json.{Value, null, bool, num, str, list, dict}
use sprinter_oss.Errors.{Exception, err}
use sprinter_oss.Config.{Settings}
use sprinter_oss.Models.{Draws, JobStatus, new_id, Job, Db, TeamsInstallation}
use sprinter_oss.Models.Table.{find}
use sprinter_oss.Models.Table.Laws.{find-exists, find-update_where}
use sprinter_oss.Jobs.{has_id, get_job}
use sprinter_oss.Delivery.{enqueue, audit}
use sprinter_oss.Completion.{
  EvidenceItem, ReviewDecision, ModelIdentity, completed, completion, complete_job, decision_value,
}
use sprinter_oss.Engine.{
  Services, record_audit, enqueue_cards, enqueue_reviews, enqueue_notifications,
}
use sprinter_oss.Engine.Process.{Outcome, Moments, success_value, announce, is_caught}

pub record_audit-jobs :
    (s : Services) (settings : Settings) (event actor : String) (payload : Value) (d d' : Draws)
    (db : Db)
    → (record_audit s settings event actor payload d d' db).1.jobs ≡ db.jobs
unfolding record_audit audit enqueue
record_audit-jobs s settings event actor payload d d' db = ground arith

enqueue_cards-jobs :
    (card : Value) (rows : List TeamsInstallation) (w : ℕ → Draws) (k : ℕ) (db : Db)
    → (enqueue_cards card rows w k db).jobs ≡ db.jobs
unfolding enqueue_cards enqueue
enqueue_cards-jobs card [] w k db = refl
enqueue_cards-jobs card (row ∷ rows) w k db = enqueue_cards-jobs card rows w _ _

enqueue_reviews-jobs :
    (s : Services) (job : Job) (decision : ReviewDecision) (evidence : List EvidenceItem)
    (model : ModelIdentity) (w : ℕ → Draws) (db : Db) (selector : Value)
    → (enqueue_reviews s job decision evidence model w db selector).1.jobs ≡ db.jobs
unfolding enqueue_reviews
enqueue_reviews-jobs s job decision evidence model w db (dict fs) = search enqueue_cards-jobs
enqueue_reviews-jobs s job decision evidence model w db null = refl
enqueue_reviews-jobs s job decision evidence model w db (bool b) = refl
enqueue_reviews-jobs s job decision evidence model w db (num z t) = refl
enqueue_reviews-jobs s job decision evidence model w db (str t) = refl
enqueue_reviews-jobs s job decision evidence model w db (list xs) = refl

enqueue_notifications-jobs :
    (s : Services) (settings : Settings) (job : Job) (decision : ReviewDecision)
    (evidence : List EvidenceItem) (model : ModelIdentity) (w : ℕ → Draws) (db : Db)
    → (enqueue_notifications s settings job decision evidence model w db).1.jobs ≡ db.jobs
unfolding enqueue_notifications
enqueue_notifications-jobs s settings job decision evidence model w db =
    elim (Bool-cases settings.teams_enabled) [
      | inl e ↦ rw e (enqueue_reviews-jobs s job decision evidence model w db job.selector_json)
      | inr e ↦ rw e refl
    ]

-- `announce` leaves the jobs alone.
pub announce-jobs :
    (s : Services) (settings : Settings) (job : Job) (o : Outcome) (i : String) (m : Moments)
    (db : Db)
    → (announce s settings job o i m db).1.jobs ≡ db.jobs
unfolding announce
announce-jobs s settings job o i m db = ground (
  arith,
  enqueue_notifications-jobs s settings job o.decision o.evidence o.model m.notify db,
  record_audit-jobs s settings "review_job.succeeded" "worker" (success_value job i o.model) m.audit
      m.audit_copy
      (enqueue_notifications s settings job o.decision o.evidence o.model m.notify db).1,
)

-- The row of the job after `complete_job`.
pub get_job-complete_job :
    (settings : Settings) (job : Job) (decision : ReviewDecision) (evidence : List EvidenceItem)
    (model : ModelIdentity) (d : Draws) (db : Db)
    → get_job job.id db ≡ some job
    → (after : Job) × (get_job job.id (complete_job settings job decision evidence model d db).1
        ≡ some after)
      × (after.status ≡ JobStatus.succeeded)
unfolding get_job complete_job completion completed
get_job-complete_job settings job decision evidence model d db e = (
  completed (decision_value decision (new_id "decision" (d.uuid 0))) (d.clock 0) job,
  ground (
    arith,
    eq_refl job.id,
    find-exists (has_id job.id) db.jobs job e,
    find-update_where (has_id job.id) (has_id job.id)
        (completed (decision_value decision (new_id "decision" (d.uuid 0))) (d.clock 0)) (λ j. refl)
        db.jobs,
  ),
  refl,
)

pub get_job_of_jobs : (i : String) (db db' : Db) → db'.jobs ≡ db.jobs → get_job i db' ≡ get_job i db
unfolding get_job
get_job_of_jobs i db db' e = ap (find (has_id i)) e

enqueue_reviews_err :
    (s : Services) (job : Job) (decision : ReviewDecision) (evidence : List EvidenceItem)
    (model : ModelIdentity) (w : ℕ → Draws) (db : Db) (selector : Value) (e : Exception)
    → (enqueue_reviews s job decision evidence model w db selector).0 ≡ err e
    → is_caught e ≡ false
unfolding enqueue_reviews is_caught
enqueue_reviews_err s job decision evidence model w db (dict fs) e h = absurd (ground arith)
enqueue_reviews_err s job decision evidence model w db null e h = ground arith
enqueue_reviews_err s job decision evidence model w db (bool b) e h = ground arith
enqueue_reviews_err s job decision evidence model w db (num z t) e h = ground arith
enqueue_reviews_err s job decision evidence model w db (str t) e h = ground arith
enqueue_reviews_err s job decision evidence model w db (list xs) e h = ground arith

pub announce_err :
    (s : Services) (settings : Settings) (job : Job) (o : Outcome) (i : String) (m : Moments)
    (db : Db) (e : Exception)
    → (announce s settings job o i m db).0 ≡ err e
    → is_caught e ≡ false
unfolding announce enqueue_notifications
announce_err s settings job o i m db e h =
    ground (
      arith,
      enqueue_reviews_err s job o.decision o.evidence o.model m.notify db job.selector_json e,
    )
