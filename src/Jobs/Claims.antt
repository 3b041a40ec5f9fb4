-- ===== src/Jobs/Claims.antt =====
-- What `claim_job` of src/sprinter/db.py promises: the oldest claimable job, to one worker.
use mathlib.Core.Option
use sprinter_oss.Prelude.{
  ℕ, ◌+◌, ap, ◌≤◌, ◌≡◌, ◌≢◌, refl, subst, sym, ◌∙◌, String, Bool, true, false, ◌&&◌, Option, none,
  some, List, arith, string_eq, nat_eq, eq_iff, eq_refl, if◌then◌else◌, ◌⊎◌, All, Option-cases, inl,
  inr,
}
use sprinter_oss.Models.{JobStatus, Job, Db}
use sprinter_oss.Models.Table.{exists, find, select, count_where, order_by, first}
use sprinter_oss.Models.Table.Laws.{
  select_nonempty, All-first, All-of_select, find_holds, find-update_where,
  count_where-update_where, select_holds, All-select,
}
use sprinter_oss.Models.Table.Keys.{
  first-order_by-some, find_self, Distinct, count_where-at_key, count_where-no_key, All-order_by,
  first-order_by,
}
use sprinter_oss.Jobs.{
  has_id, get_job, is_waiting, is_claimable, candidate, claimed, still_waiting, claim_row,
  claim_job,
}

and_false : (b : Bool) → (b && false) ≡ false
and_false true = refl
and_false false = refl

get-claim_row :
    (now : ℕ) (c : Job) (k : String) (db : Db)
    → get_job k (claim_row now c db).1
      ≡ Option.map (λ job. if still_waiting c.id job then claimed now job else job) (get_job k db)
unfolding get_job claim_row claimed
get-claim_row now c k db =
    ground
      (arith, find-update_where (has_id k) (still_waiting c.id) (claimed now) (λ job. refl) db.jobs)

-- A claim answers the candidate with the values of the update, where one row of its id waits.
claim_row_found :
    (now : ℕ) (c : Job) (db : Db) (job : Job)
    → (claim_row now c db).0 ≡ some job
    → (job ≡ claimed now c) × (count_where (still_waiting c.id) db.jobs ≡ 1)
unfolding claim_row
claim_row_found now c db job e = ground arith

claim_row_id :
    (now : ℕ) (c : Job) (db : Db) (job : Job) → (claim_row now c db).0 ≡ some job → job.id ≡ c.id
unfolding claimed
claim_row_id now c db job e = ap (λ (j : Job). j.id) (claim_row_found now c db job e).0

-- After the guarded update no row of that id waits.
claim_row_spent :
    (now now' : ℕ) (c c' : Job) (db : Db)
    → c'.id ≡ c.id
    → (claim_row now' c' (claim_row now c db).1).0 ≡ none
unfolding claim_row claimed is_waiting
claim_row_spent now now' c c' db same = rw (
  same,
  count_where-update_where (still_waiting c.id) (claimed now) (λ job. and_false (has_id c.id job))
      db.jobs,
)

claim_row_old :
    (now : ℕ) (i : String) (db : Db) (old : Job)
    → Distinct (λ j. j.id) db.jobs
    → get_job i db ≡ some old
    → count_where (still_waiting i) db.jobs ≡ 1
    → (has_id i old ≡ true) × (is_waiting old.status ≡ true)
unfolding get_job
claim_row_old now i db old d g one = ground (
  arith,
  find_holds (has_id i) db.jobs old,
  count_where-at_key (λ j. j.id) i (λ j. is_waiting j.status) db.jobs old d,
)

-- One row waits only where there is a row.
claim_row_present :
    (i : String) (db : Db) → count_where (still_waiting i) db.jobs ≡ 1 → get_job i db ≢ none
unfolding get_job
claim_row_present i db one gone =
    absurd (omega (arith, count_where-no_key (λ j. j.id) i (λ j. is_waiting j.status) db.jobs gone))

-- Rows of other ids are not touched.
get-claim_row_ne :
    (now : ℕ) (c : Job) (k : String) (db : Db)
    → k ≢ c.id
    → get_job k (claim_row now c db).1 ≡ get_job k db
unfolding get_job
get-claim_row_ne now c k db h = elim (Option-cases (get_job k db)) [
  | inl e ↦ get-claim_row now c k db ∙ rw e
  | inr (old, e) ↦
      get-claim_row now c k db
      ∙ ground (arith, e, find_holds (has_id k) db.jobs old, eq_iff old.id k, eq_iff old.id c.id)
]

is_waiting_cases :
    (status : JobStatus)
    → is_waiting status ≡ true
    → (status ≡ JobStatus.pending) ⊎ (status ≡ JobStatus.retry)
unfolding is_waiting
is_waiting_cases JobStatus.pending e = inl refl
is_waiting_cases JobStatus.retry e = inr refl
is_waiting_cases JobStatus.running e = absurd (ground (arith, e))
is_waiting_cases JobStatus.succeeded e = absurd (ground (arith, e))
is_waiting_cases JobStatus.failed e = absurd (ground (arith, e))

-- What a claim did that returned a job: the job is the candidate of the copy that was seen, the stored
-- row waited, and both have the values of the claim; the other rows are as they were.
abbrev pub Claims : ℕ → Job → Db → Db → Job → Type 0
Claims now c db db' job =
    (job ≡ record c {
      status = JobStatus.running;
      attempts = c.attempts + 1;
      claimed_at = some now;
      updated_at = now;
    })
    × (old : Job) × (get_job job.id db ≡ some old)
    × ((old.status ≡ JobStatus.pending) ⊎ (old.status ≡ JobStatus.retry))
    × (get_job job.id db'
        ≡ some (record old {
          status = JobStatus.running;
          attempts = old.attempts + 1;
          claimed_at = some now;
          updated_at = now;
        }))
    × ((k : String) → k ≢ job.id → get_job k db' ≡ get_job k db)

claim_row_lem :
    (now : ℕ) (c : Job) (db : Db) (job : Job)
    → Distinct (λ j. j.id) db.jobs
    → (claim_row now c db).0 ≡ some job
    → Claims now c db (claim_row now c db).1 job
unfolding claimed
claim_row_lem now c db job d e =
    let (copy, one) = claim_row_found now c db job e in
    let same : job.id ≡ c.id = claim_row_id now c db job e in
    elim (Option-cases (get_job c.id db)) [
      | inl gone ↦ absurd (claim_row_present c.id db one gone)
      | inr (old, got) ↦
          let (own, waits) = claim_row_old now c.id db old d got one in
          (
            copy,
            old,
            subst (λ s. get_job s db ≡ some old) (sym same) got,
            is_waiting_cases old.status waits,
            subst (λ s. get_job s (claim_row now c db).1 ≡ some (claimed now old)) (sym same)
                (ground (arith, got, own, waits, get-claim_row now c c.id db)),
            λ k h. get-claim_row_ne now c k db (λ p. h (p ∙ sym same)),
          )
    ]

-- A claim that returns a job is the guarded update of some candidate.
claim_job_row :
    (now : ℕ) (seen db : Db) (job : Job)
    → (claim_job now seen db).0 ≡ some job
    → (c : Job) × (candidate now seen ≡ some c) × (claim_job now seen db ≡ claim_row now c db)
unfolding claim_job
claim_job_row now seen db job e = elim (Option-cases (candidate now seen)) [
  | inl none_left ↦ absurd (ground (arith, none_left))
  | inr (c, f) ↦ (c, f, rw (f, claim_job))
]

-- A claim returns the job that it chose among those that it saw, as running, with one more attempt
-- than that copy and the time of the claim. The row of that id was pending or to be retried, and has the same values now,
-- with one more attempt than it had; every other job is as it was. The ids are assumed distinct.
pub claim_job_lem :
    (now : ℕ) (seen db : Db) (job : Job)
    → Distinct (λ j. j.id) db.jobs
    → (claim_job now seen db).0 ≡ some job
    → (c : Job) × (candidate now seen ≡ some c) × Claims now c db (claim_job now seen db).1 job
claim_job_lem now seen db job d e =
    let (c, f, row) = claim_job_row now seen db job e in
    (
      c,
      f,
      subst (λ (r : Option Job × Db). Claims now c db r.1 job) (sym row)
          (claim_row_lem now c db job d (subst (λ (r : Option Job × Db). r.0 ≡ some job) row e)),
    )

claim_row_once :
    (now now' : ℕ) (c c' : Job) (db : Db) (a b : Job)
    → (claim_row now c db).0 ≡ some a
    → (claim_row now' c' (claim_row now c db).1).0 ≡ some b
    → a.id ≢ b.id
claim_row_once now now' c c' db a b ea eb same =
    let ib : b.id ≡ c'.id = claim_row_id now' c' (claim_row now c db).1 b eb in
    let one : c'.id ≡ c.id = sym ib ∙ (sym same ∙ claim_row_id now c db a ea) in
    absurd (ground (arith, claim_row_spent now now' c c' db one, eb))

-- Two workers: whatever each of them saw when it chose, of two claims in a row the second never
-- returns the job of the first.
pub claim_job_once :
    (now now' : ℕ) (seen seen' db : Db) (a b : Job)
    → (claim_job now seen db).0 ≡ some a
    → (claim_job now' seen' (claim_job now seen db).1).0 ≡ some b
    → a.id ≢ b.id
claim_job_once now now' seen seen' db a b ea eb =
    let (c, _, ec) = claim_job_row now seen db a ea in
    let (c', _, ec') = claim_job_row now' seen' (claim_job now seen db).1 b eb in
    claim_row_once now now' c c' db a b (subst (λ (r : Option Job × Db). r.0 ≡ some a) ec ea) (
      subst (λ (r : Option Job × Db). (claim_row now' c' r.1).0 ≡ some b) ec
        (subst (λ (r : Option Job × Db). r.0 ≡ some b) ec' eb))

-- A candidate is stored as it was seen.
candidate_stored :
    (now : ℕ) (db : Db) (c : Job)
    → Distinct (λ j. j.id) db.jobs
    → candidate now db ≡ some c
    → get_job c.id db ≡ some c
unfolding candidate get_job
candidate_stored now db c d chosen =
    All-first (λ j. find (has_id j.id) db.jobs ≡ some j) _ c
      (All-order_by (λ j. j.created_at) _ (select (is_claimable now) db.jobs)
        (All-select _ (is_claimable now) db.jobs (find_self (λ j. j.id) db.jobs d)))
      chosen

-- Where the worker sees the database as it is, the job that it gets is the stored row.
pub claim_job_stored :
    (now : ℕ) (db : Db) (job : Job)
    → Distinct (λ j. j.id) db.jobs
    → (claim_job now db db).0 ≡ some job
    → get_job job.id (claim_job now db db).1 ≡ some job
unfolding claimed
claim_job_stored now db job d e =
    let (c, f, (copy, old, got, _, after, _)) = claim_job_lem now db db job d e in
    let own : get_job job.id db ≡ some c =
      subst (λ i. get_job i db ≡ some c) (sym (ap (λ (j : Job). j.id) copy))
        (candidate_stored now db c d f) in
    let same : old ≡ c = ground (arith, got, own) in
    after ∙ ap some (ap (claimed now) same ∙ sym copy)

-- The candidate is one of the claimable jobs, and no claimable job is older.
candidate_lem :
    (now : ℕ) (db : Db)
    → Distinct (λ j. j.id) db.jobs
    → exists (is_claimable now) db.jobs ≡ true
    → (c : Job) × (candidate now db ≡ some c)
      × (is_claimable now c ≡ true)
      × (get_job c.id db ≡ some c)
      × All (λ other. is_claimable now other ≡ true → c.created_at ≤ other.created_at) db.jobs
unfolding candidate get_job
candidate_lem now db d e =
    let jobs : List Job = select (is_claimable now) db.jobs in
    let (y, ys, some_left) = select_nonempty (is_claimable now) db.jobs e in
    let (c, chosen) = first-order_by-some (λ j. j.created_at) y ys in
    let chosen' : first (order_by (λ j. j.created_at) jobs) ≡ some c = rw some_left chosen in
    (
      c,
      chosen',
      All-first (λ j. is_claimable now j ≡ true) _ c
          (All-order_by (λ j. j.created_at) _ jobs (select_holds (is_claimable now) db.jobs))
          chosen',
      candidate_stored now db c d chosen',
      All-of_select _ (is_claimable now) db.jobs
          (first-order_by (λ j. j.created_at) jobs c chosen'),
    )

claim_row_available :
    (now : ℕ) (c : Job) (db : Db)
    → Distinct (λ j. j.id) db.jobs
    → get_job c.id db ≡ some c
    → is_waiting c.status ≡ true
    → (claim_row now c db).0 ≡ some (claimed now c)
unfolding claim_row get_job
claim_row_available now c db d got waits = ground (
  arith,
  eq_refl c.id,
  count_where-at_key (λ j. j.id) c.id (λ j. is_waiting j.status) db.jobs c d,
)

is_claimable-is_waiting :
    (now : ℕ) (c : Job) → is_claimable now c ≡ true → is_waiting c.status ≡ true
unfolding is_claimable
is_claimable-is_waiting now c e = ground arith

-- The claim takes a job that was claimable and that no claimable job is older than.
abbrev pub ClaimsOldest : ℕ → Db → Type 0
ClaimsOldest now db =
    (c : Job) × (is_claimable now c ≡ true)
    × (get_job c.id db ≡ some c)
    × ((claim_job now db db).0 ≡ some (claimed now c))
    × All (λ other. is_claimable now other ≡ true → c.created_at ≤ other.created_at) db.jobs

-- A worker that is alone gets a job as soon as one is claimable: it is claimable itself, and no
-- claimable job was created before it. The ids are assumed distinct.
pub claim_job_available :
    (now : ℕ) (db : Db)
    → Distinct (λ j. j.id) db.jobs
    → exists (is_claimable now) db.jobs ≡ true
    → ClaimsOldest now db
unfolding claim_job
claim_job_available now db d e =
    let (c, chosen, due, got, oldest) = candidate_lem now db d e in
    (
      c,
      due,
      got,
      rw (chosen, claim_job)
          (claim_row_available now c db d got (is_claimable-is_waiting now c due)),
      oldest,
    )
