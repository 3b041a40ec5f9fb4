-- ===== src/Operations/References.antt =====
-- The foreign keys: evidence and decisions belong to stored jobs, findings to stored decisions.
use sprinter_oss.Prelude.{
  ℕ, ◌≡◌, refl, subst, sym, ◌∙◌, String, Bool, true, List, [], ◌∷◌, suc, All, All-map, All-append,
  Bool-cases, Option-cases, inl, inr, ◌==◌, string_eq, eq_refl,
}
use sprinter_oss.Config.{Settings}
use sprinter_oss.Models.{Draws, Job, Decision, Finding, Db, new_id}
use sprinter_oss.Models.Table.{update_where, insert, exists, find, delete_where}
use sprinter_oss.Models.Table.Laws.{
  All-update_where, All-insert, exists-delete_where, delete_where_holds, All-delete_where, All-both,
  exists-insert_old, exists-insert_new, exists-update_where,
}
use sprinter_oss.Jobs.{has_id}
use sprinter_oss.Completion.{
  EvidenceItem, ReviewDecision, ModelIdentity, has_dedupe_key, record_finding, evidence_rows,
  decision_row, completion, complete_job, completed,
}
use sprinter_oss.Retention.{
  delete_jobs, deletes, purge, evidence_expired, audit_expired, job_expired,
}

abbrev pub is_stored_job : List Job → String → Bool
is_stored_job jobs i = exists (has_id i) jobs

abbrev pub is_stored_decision : List Decision → String → Bool
is_stored_decision decisions i = exists (λ d. d.id == i) decisions

pub record HasReferences (db : Db) : Type 0 where
  pub evidence : All (λ e. is_stored_job db.jobs e.job_id ≡ true) db.evidence
  pub decisions : All (λ d. is_stored_job db.jobs d.job_id ≡ true) db.decisions
  pub findings : All (λ f. is_stored_decision db.decisions f.decision_id ≡ true) db.findings

-- An operation on the jobs that keeps every stored job stored.
pub HasReferences-jobs :
    (db : Db) (jobs : List Job)
    → ((i : String) → is_stored_job db.jobs i ≡ true → is_stored_job jobs i ≡ true)
    → HasReferences db
    → HasReferences (record db { jobs = jobs })
HasReferences-jobs db jobs keep h = record {
  evidence = All-map _ (λ e k. keep e.job_id k) db.evidence h.evidence;
  decisions = All-map _ (λ d k. keep d.job_id k) db.decisions h.decisions;
  findings = h.findings;
}

pub HasReferences-update_jobs :
    (db : Db) (p : Job → Bool) (f : Job → Job)
    → ((i : String) (job : Job) → has_id i (f job) ≡ has_id i job)
    → HasReferences db
    → HasReferences (record db { jobs = update_where p f db.jobs })
HasReferences-update_jobs db p f keep =
    HasReferences-jobs db (update_where p f db.jobs)
      (λ i e. exists-update_where (has_id i) p f (keep i) db.jobs ∙ e)

pub HasReferences-insert_job :
    (db : Db) (job : Job)
    → HasReferences db
    → HasReferences (record db { jobs = insert job db.jobs })
HasReferences-insert_job db job =
    HasReferences-jobs db (insert job db.jobs) (λ i e. exists-insert_old (has_id i) job db.jobs e)

evidence_rows_job :
    (settings : Settings) (job : Job) (now : ℕ) (d : Draws) (k : ℕ) (items : List EvidenceItem)
    → All (λ e. e.job_id ≡ job.id) (evidence_rows settings job now d k items)
unfolding evidence_rows
evidence_rows_job settings job now d k [] = tt
evidence_rows_job settings job now d k (item ∷ items) =
    (refl, evidence_rows_job settings job now d (suc k) items)

record_finding-stored :
    (key decision_id : String) (now : ℕ) (hex : String) (t u : ℕ) (findings : List Finding)
    (P : String → Type 0)
    → P decision_id
    → All (λ f. P f.decision_id) findings
    → All (λ f. P f.decision_id) (record_finding key decision_id now hex t u findings)
unfolding record_finding
record_finding-stored key decision_id now hex t u findings P new old =
    elim (Option-cases (find (has_dedupe_key key) findings)) [
      | inl e ↦ rw (e, record_finding) (All-insert _ _ findings new old)
      | inr (f, e) ↦ rw (e, record_finding) (All-update_where _ _ _ (λ g _ _. new) findings old)
    ]

completion-HasReferences :
    (settings : Settings) (job : Job) (decision : ReviewDecision) (items : List EvidenceItem)
    (model : ModelIdentity) (d : Draws) (db : Db)
    → is_stored_job db.jobs job.id ≡ true
    → HasReferences db
    → HasReferences (completion settings job decision items model d db)
unfolding completion completed decision_row
completion-HasReferences settings job decision items model d db there h =
    let keep : (i : String)
        → is_stored_job db.jobs i ≡ true
        → is_stored_job (completion settings job decision items model d db).jobs i ≡ true =
      λ i e. exists-update_where (has_id i) _ _ (λ j. refl) db.jobs ∙ e in
    record {
      evidence =
          All-append _ db.evidence _ (All-map _ (λ e k. keep e.job_id k) db.evidence h.evidence) (
            All-map _
              (λ e k. keep e.job_id (subst (λ i. is_stored_job db.jobs i ≡ true) (sym k) there)) _
              (evidence_rows_job settings job _ d 1 items));
      decisions =
          All-insert _ _ db.decisions (keep job.id there)
            (All-map _ (λ e k. keep e.job_id k) db.decisions h.decisions);
      findings =
          record_finding-stored _ _ _ _ _ _ db.findings
            (λ i.
              is_stored_decision (completion settings job decision items model d db).decisions i
              ≡ true)
            (exists-insert_new (λ r. r.id == new_id "decision" (d.uuid 0)) _ db.decisions
              (eq_refl (new_id "decision" (d.uuid 0))))
            (All-map _ (λ f k. exists-insert_old (λ r. r.id == f.decision_id) _ db.decisions k)
              db.findings h.findings);
    }

pub complete_job-HasReferences :
    (settings : Settings) (job : Job) (decision : ReviewDecision) (items : List EvidenceItem)
    (model : ModelIdentity) (d : Draws) (db : Db)
    → HasReferences db
    → HasReferences (complete_job settings job decision items model d db).1
unfolding complete_job
complete_job-HasReferences settings job decision items model d db h =
    elim (Bool-cases (exists (has_id job.id) db.jobs)) [
      | inl e ↦ rw e (completion-HasReferences settings job decision items model d db e h)
      | inr e ↦ rw e h
    ]

-- The cascades leave no row without its parent.
delete_jobs-HasReferences :
    (p : Job → Bool) (db : Db) → HasReferences db → HasReferences (delete_jobs p db)
unfolding delete_jobs
delete_jobs-HasReferences p db h = record {
  evidence =
      All-both (λ e k g. exists-delete_where p (has_id e.job_id) db.jobs k g) _
        (All-delete_where _ _ db.evidence h.evidence) (delete_where_holds _ db.evidence);
  decisions =
      All-both (λ d k g. exists-delete_where p (has_id d.job_id) db.jobs k g) _
        (All-delete_where _ _ db.decisions h.decisions) (delete_where_holds _ db.decisions);
  findings =
      All-both (λ f k g. exists-delete_where _ (λ d. d.id == f.decision_id) db.decisions k g) _
        (All-delete_where _ _ db.findings h.findings) (delete_where_holds _ db.findings);
}

pub purge-HasReferences :
    (before : ℕ → ℕ → Bool) (settings : Settings) (now : ℕ) (db : Db)
    → HasReferences db
    → HasReferences (purge before settings now db).1
unfolding purge deletes
purge-HasReferences before settings now db h =
    let expired : Db = record db {
      evidence = delete_where (evidence_expired before now) db.evidence;
      audit_events = delete_where (audit_expired before now) db.audit_events;
    } in
    let r : HasReferences (delete_jobs (job_expired before settings now) expired) =
      delete_jobs-HasReferences (job_expired before settings now) expired (record {
        evidence = All-delete_where _ _ db.evidence h.evidence;
        decisions = h.decisions;
        findings = h.findings;
      }) in
    record { evidence = r.evidence; decisions = r.decisions; findings = r.findings }
