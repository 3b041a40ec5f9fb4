-- ===== src/Jobs/Submission.antt =====
-- What `create_job` of src/sprinter/db.py promises: one job for each idempotency key.
use sprinter_oss.Prelude.{
  ◌≡◌, ◌↔◌, refl, subst, sym, true, false, none, some, arith, ◌==◌, string_eq, nat_eq, nat_beq_iff,
  eq_iff, eq_refl, if◌then◌else◌, clip, Option-cases, inl, inr,
}
use sprinter_oss.Json.{dumps, value_eq, value_beq_iff}
use sprinter_oss.Errors.{ok, err, idempotency_conflict}
use sprinter_oss.Config.{Settings}
use sprinter_oss.Models.{Draws, Job, Db}
use sprinter_oss.Models.Table.{find, insert, exists}
use sprinter_oss.Models.Table.Laws.{find-insert, exists-find, find-exists}
use sprinter_oss.Jobs.{JobRequest, same_request, new_job, has_key, has_id, flush_job, create_job}

-- Two requests that the database stores alike, their keys aside.
pub record SameContent (r s : JobRequest) : Type 0 where
  pub selector_type : r.selector_type ≡ s.selector_type
  pub selector : dumps r.selector ≡ dumps s.selector
  pub source : clip 128 r.source ≡ clip 128 s.source
  pub summary : dumps r.summary ≡ dumps s.summary
  pub row_limit : r.row_limit ≡ s.row_limit

same_request-new_job :
    (settings : Settings) (r s : JobRequest) (d : Draws)
    → (same_request (new_job settings r d) s ≡ true) ↔ SameContent r s
unfolding same_request new_job
same_request-new_job settings r s d = (
  λ e. ground (
    arith,
    eq_iff r.selector_type s.selector_type,
    value_beq_iff (dumps r.selector) (dumps s.selector),
    eq_iff (clip 128 r.source) (clip 128 s.source),
    value_beq_iff (dumps r.summary) (dumps s.summary),
    nat_beq_iff r.row_limit s.row_limit,
  ),
  λ c. ground (
    arith,
    eq_iff r.selector_type s.selector_type,
    value_beq_iff (dumps r.selector) (dumps s.selector),
    eq_iff (clip 128 r.source) (clip 128 s.source),
    value_beq_iff (dumps r.summary) (dumps s.summary),
    nat_beq_iff r.row_limit s.row_limit,
  ),
)

-- What a creation did.
record Created (settings : Settings) (r : JobRequest) (d : Draws) (db db' : Db) (job : Job)
    : Type 0 where
  row : job ≡ new_job settings r d
  stored : db'.jobs ≡ insert job db.jobs
  new_key : exists (has_key r.idempotency_key) db.jobs ≡ false
  new_name : exists (has_id job.id) db.jobs ≡ false

new_job_key :
    (settings : Settings) (r : JobRequest) (d : Draws)
    → (new_job settings r d).idempotency_key ≡ r.idempotency_key
unfolding new_job
new_job_key settings r d = refl

flush_job_lem :
    (new : Job) (db : Db) (job : Job)
    → (flush_job new db).0 ≡ ok (job, true)
    → (job ≡ new)
      × ((flush_job new db).1.jobs ≡ insert job db.jobs)
      × (exists (has_key new.idempotency_key) db.jobs ≡ false)
      × (exists (has_id new.id) db.jobs ≡ false)
unfolding flush_job
flush_job_lem new db job e = ground arith

flush_job-Created :
    (settings : Settings) (r : JobRequest) (d : Draws) (db : Db) (job : Job)
    → (flush_job (new_job settings r d) db).0 ≡ ok (job, true)
    → Created settings r d db (flush_job (new_job settings r d) db).1 job
flush_job-Created settings r d db job e =
    let (same, stored, key, name) = flush_job_lem (new_job settings r d) db job e in
    record {
      row = same;
      stored = stored;
      new_key = subst (λ k. exists (has_key k) db.jobs ≡ false) (new_job_key settings r d) key;
      new_name = subst (λ (j : Job). exists (has_id j.id) db.jobs ≡ false) (sym same) name;
    }

create_job-Created :
    (settings : Settings) (r : JobRequest) (d : Draws) (seen db : Db) (job : Job)
    → (create_job settings r d seen db).0 ≡ ok (job, true)
    → Created settings r d db (create_job settings r d seen db).1 job
unfolding create_job
create_job-Created settings r d seen db job e =
    elim (Option-cases (find (has_key r.idempotency_key) seen.jobs)) [
      | inl f ↦ rw (f, create_job) (flush_job-Created settings r d db job (rw (f, create_job) at e))
      | inr (old, f) ↦ absurd (ground (arith, f))
    ]

create_job_known :
    (settings : Settings) (s : JobRequest) (d : Draws) (seen db : Db) (job : Job)
    → find (has_key s.idempotency_key) seen.jobs ≡ some job
    → create_job settings s d seen db
      ≡ (if same_request job s then (ok (job, false), db) else (err idempotency_conflict, db))
unfolding create_job
create_job_known settings s d seen db job f = rw (f, create_job)

module _ (settings : Settings) (r : JobRequest) (d : Draws) (db db' : Db) (job : Job)
    (c : Created settings r d db db' job) where
  Created-find : find (has_key r.idempotency_key) db'.jobs ≡ some job
  Created-find =
      let own : has_key r.idempotency_key job ≡ true =
        subst (λ j. has_key r.idempotency_key j ≡ true) (sym c.row)
          (subst (λ k. (k == r.idempotency_key) ≡ true) (sym (new_job_key settings r d))
            (eq_refl r.idempotency_key)) in
      subst (λ js. find (has_key r.idempotency_key) js ≡ some job) (sym c.stored)
        (ground (
          arith,
          own,
          exists-find (has_key r.idempotency_key) db.jobs c.new_key,
          find-insert (has_key r.idempotency_key) job db.jobs,
        ))

  Created-same_request : (s : JobRequest) → (same_request job s ≡ true) ↔ SameContent r s
  Created-same_request s =
      subst (λ j. (same_request j s ≡ true) ↔ SameContent r s) (sym c.row)
        (same_request-new_job settings r s d)

-- After a job was created, a request with its key creates nothing more and changes nothing: it gets
-- that job, or a conflict. It gets the job exactly if the two requests have the same content.
pub create_job_replay :
    (settings : Settings) (r s : JobRequest) (d d' : Draws) (seen db : Db) (job : Job)
    → (create_job settings r d seen db).0 ≡ ok (job, true)
    → s.idempotency_key ≡ r.idempotency_key
    → let db' = (create_job settings r d seen db).1 in
      (create_job settings s d' db' db'
        ≡ (if same_request job s then (ok (job, false), db') else (err idempotency_conflict, db')))
      × ((same_request job s ≡ true) ↔ SameContent r s)
create_job_replay settings r s d d' seen db job e same =
    let db' : Db = (create_job settings r d seen db).1 in
    let c : Created settings r d db db' job = create_job-Created settings r d seen db job e in
    (
      create_job_known settings s d' db' db' job (
          subst (λ k. find (has_key k) db'.jobs ≡ some job) (sym same)
            (Created-find settings r d db db' job c)),
      Created-same_request settings r d db db' job c s,
    )

flush_job_race :
    (new : Job) (db : Db) (winner : Job)
    → find (has_key new.idempotency_key) db.jobs ≡ some winner
    → flush_job new db ≡ (ok (winner, false), db)
unfolding flush_job
flush_job_race new db winner there =
    let taken : exists (has_key new.idempotency_key) db.jobs ≡ true =
      find-exists (has_key new.idempotency_key) db.jobs winner there in
    ground (arith, taken, there)

-- The request that loses a race, whose select saw no job of its key and whose insert finds one, gets
-- that job as a replay, whatever it asks for.
pub create_job_race :
    (settings : Settings) (r : JobRequest) (d : Draws) (seen db : Db) (winner : Job)
    → find (has_key r.idempotency_key) seen.jobs ≡ none
    → find (has_key r.idempotency_key) db.jobs ≡ some winner
    → create_job settings r d seen db ≡ (ok (winner, false), db)
unfolding create_job
create_job_race settings r d seen db winner unseen there =
    rw (unseen, create_job)
      (flush_job_race (new_job settings r d) db winner (
        subst (λ k. find (has_key k) db.jobs ≡ some winner) (sym (new_job_key settings r d)) there))
