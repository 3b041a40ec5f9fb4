-- ===== src/Jobs/Refinement.antt =====
-- The contract of `create_job` of src/sprinter/db.py, without rows, identifiers and times: a map from
-- the keys to the contents of the requests, which takes a content for a key once.
use sprinter_oss.Prelude.{
  ℕ, ◌≡◌, refl, subst, ap, String, Bool, true, false, ◌&&◌, Option, none, some, arith, ◌==◌,
  string_eq, nat_eq, eq_iff, if◌then◌else◌, clip, Option-cases, Bool-cases, inl, inr,
}
use sprinter_oss.Json.{Value, dumps, value_eq}
use sprinter_oss.Errors.{
  Result, ok, err, idempotency_conflict, integrity_error, value_error, runtime_error, pi_error,
  pi_unavailable, pi_protocol_error, teams_authentication_error, key_error, type_error,
  attribute_error, os_error, http_error,
}
use sprinter_oss.Config.{Settings}
use sprinter_oss.Models.{Draws, Job, Db, new_id}
use sprinter_oss.Models.Table.{find, insert, exists}
use sprinter_oss.Models.Table.Laws.{find-insert, exists_find-some}
use sprinter_oss.Jobs.{JobRequest, same_request, new_job, has_key, has_id, flush_job, create_job}

-- The content of a request, as it is stored.
pub record Content : Type 0 where
  pub selector_type : String
  pub selector : Value
  pub source : String
  pub summary : Value
  pub row_limit : ℕ

unfoldable pub is_same : Content → Content → Bool
is_same a b =
    a.selector_type == b.selector_type
    && (a.selector == b.selector
        && (a.source == b.source && (a.summary == b.summary && a.row_limit == b.row_limit)))

-- The abstract state.
abbrev pub Contents : Type 0
Contents = String → Option Content

-- The abstract answer.
pub data Verdict : Type 0 where
  created replayed conflicting broken : Verdict

-- The contract: a new key is entered, and a known one keeps its content.
unfoldable pub submit : String → Content → Contents → Verdict × Contents
unfolding is_same
submit key content known = elim (known key) [
  | none ↦ (created, λ k. if key == k then some content else known k)
  | some old ↦ (if is_same old content then replayed else conflicting, known)
]

abbrev content_of : Job → Content
content_of job = record {
  selector_type = job.selector_type;
  selector = job.selector_json;
  source = job.source;
  summary = job.summary_json;
  row_limit = job.row_limit;
}

abbrev pub content_asked : JobRequest → Content
content_asked r = record {
  selector_type = r.selector_type;
  selector = dumps r.selector;
  source = clip 128 r.source;
  summary = dumps r.summary;
  row_limit = r.row_limit;
}

unfoldable content_found : Option Job → Option Content
content_found none = none
content_found (some job) = some (content_of job)

-- What a database is, as the abstract state.
unfoldable pub view : Db → Contents
unfolding content_found
view db key = content_found (find (has_key key) db.jobs)

-- What an answer is, as the abstract one.
unfoldable pub verdict : Result (Job × Bool) → Verdict
verdict (ok (job, true)) = created
verdict (ok (job, false)) = replayed
verdict (err idempotency_conflict) = conflicting
verdict (err integrity_error) = broken
verdict (err (value_error m)) = broken
verdict (err (runtime_error m)) = broken
verdict (err (pi_error m)) = broken
verdict (err (pi_unavailable m)) = broken
verdict (err (pi_protocol_error m)) = broken
verdict (err (teams_authentication_error m)) = broken
verdict (err (key_error m)) = broken
verdict (err type_error) = broken
verdict (err attribute_error) = broken
verdict (err (os_error m)) = broken
verdict (err (http_error m)) = broken

unknown_key :
    (key : String) (db : Db)
    → find (has_key key) db.jobs ≡ none
    → exists (has_key key) db.jobs ≡ false
unknown_key key db n = elim (Bool-cases (exists (has_key key) db.jobs)) [
  | inr e ↦ e
  | inl e ↦ let (job, f) = exists_find-some (has_key key) db.jobs e in absurd (ground (arith, f, n))
]

-- The map after an insert.
view-insert :
    (settings : Settings) (r : JobRequest) (d : Draws) (db : Db) (k : String)
    → find (has_key r.idempotency_key) db.jobs ≡ none
    → content_found (find (has_key k) (insert (new_job settings r d) db.jobs))
      ≡ (if r.idempotency_key == k then some (content_asked r) else view db k)
unfolding view content_found new_job
view-insert settings r d db k n = elim (Bool-cases (r.idempotency_key == k)) [
  | inl e ↦
      let unknown : find (has_key k) db.jobs ≡ none =
        subst (λ x. find (has_key x) db.jobs ≡ none) ((eq_iff r.idempotency_key k).0 e) n in
      ground (arith, find-insert (has_key k) (new_job settings r d) db.jobs, unknown, e)
  | inr e ↦ elim (Option-cases (find (has_key k) db.jobs)) [
    | inl f ↦ ground (arith, find-insert (has_key k) (new_job settings r d) db.jobs, f, e)
    | inr (x, f) ↦ ground (arith, find-insert (has_key k) (new_job settings r d) db.jobs, f, e)
  ]
]

flush_job-new :
    (settings : Settings) (r : JobRequest) (d : Draws) (db : Db)
    → find (has_key r.idempotency_key) db.jobs ≡ none
    → exists (has_id (new_id "job" (d.uuid 0))) db.jobs ≡ false
    → flush_job (new_job settings r d) db ≡ (
      ok (new_job settings r d, true),
      record db { jobs = insert (new_job settings r d) db.jobs },
    )
unfolding flush_job new_job
flush_job-new settings r d db n fresh = ground (arith, fresh, unknown_key r.idempotency_key db n)

submit_new :
    (key : String) (content : Content) (known : Contents)
    → known key ≡ none
    → submit key content known ≡ (created, λ k. if key == k then some content else known k)
unfolding submit
submit_new key content known n = rw (n, submit) refl

submit_known :
    (key : String) (content old : Content) (known : Contents)
    → known key ≡ some old
    → submit key content known ≡ (if is_same old content then replayed else conflicting, known)
unfolding submit
submit_known key content old known f = rw (f, submit) refl

view-find :
    (key : String) (db : Db) (found : Option Job)
    → find (has_key key) db.jobs ≡ found
    → view db key ≡ content_found found
unfolding view
view-find key db found e = ap content_found e

is_same-content :
    (job : Job) (r : JobRequest) → is_same (content_of job) (content_asked r) ≡ same_request job r
unfolding is_same same_request
is_same-content job r = refl

verdict_known :
    (job : Job) (same : Bool)
    → verdict (if same then ok (job, false) else err idempotency_conflict)
      ≡ (if same then replayed else conflicting)
unfolding verdict
verdict_known job true = refl
verdict_known job false = refl

create_job_known :
    (settings : Settings) (r : JobRequest) (d : Draws) (db : Db) (old : Job)
    → find (has_key r.idempotency_key) db.jobs ≡ some old
    → create_job settings r d db db
      ≡ (if same_request old r then ok (old, false) else err idempotency_conflict, db)
unfolding create_job
create_job_known settings r d db old f = ground (arith, f)

create_job_new :
    (settings : Settings) (r : JobRequest) (d : Draws) (db : Db)
    → find (has_key r.idempotency_key) db.jobs ≡ none
    → exists (has_id (new_id "job" (d.uuid 0))) db.jobs ≡ false
    → create_job settings r d db db ≡ (
      ok (new_job settings r d, true),
      record db { jobs = insert (new_job settings r d) db.jobs },
    )
unfolding create_job
create_job_new settings r d db n fresh = rw (n, create_job) (flush_job-new settings r d db n fresh)

-- Where the new id is not in use and no other process writes in between: `create_job` answers as the
-- contract does, and the keys have the contents that they have after it.
pub create_job-submit :
    (settings : Settings) (r : JobRequest) (d : Draws) (db : Db)
    → exists (has_id (new_id "job" (d.uuid 0))) db.jobs ≡ false
    → let (answer, db') = create_job settings r d db db in
      let (expected, known) = submit r.idempotency_key (content_asked r) (view db) in
      (verdict answer ≡ expected) × ((k : String) → view db' k ≡ known k)
unfolding view verdict
create_job-submit settings r d db fresh =
    elim (Option-cases (find (has_key r.idempotency_key) db.jobs)) [
      | inl n ↦
          rw
            (
              create_job_new settings r d db n fresh,
              submit_new r.idempotency_key (content_asked r) (view db)
                  (view-find r.idempotency_key db none n),
            )
            (refl, λ k. view-insert settings r d db k n)
      | inr (old, f) ↦
          rw
            (
              create_job_known settings r d db old f,
              submit_known r.idempotency_key (content_asked r) (content_of old) (view db)
                  (view-find r.idempotency_key db (some old) f),
              is_same-content old r,
            )
            (verdict_known old (same_request old r), λ k. refl)
    ]
