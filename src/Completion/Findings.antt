-- ===== src/Completion/Findings.antt =====
-- How `complete_job` of src/sprinter/db.py counts the occurrences of a finding.
use sprinter_oss.Prelude.{
  ℕ, suc, ◌+◌, ◌≡◌, refl, ap, subst, ◌∙◌, String, none, some, List, [], ◌∷◌, arith, ◌==◌, string_eq,
  eq_iff, if◌then◌else◌, Option-cases, Bool-cases, inl, inr, length, length-append,
}
use sprinter_oss.Errors.{ok, err, integrity_error}
use sprinter_oss.Config.{Settings}
use sprinter_oss.Models.{Draws, Job, Finding, Db, new_id}
use sprinter_oss.Models.Table.{find, update_where, insert, exists}
use sprinter_oss.Models.Table.Laws.{find-update_where, find-insert, find_holds}
use sprinter_oss.Jobs.{has_id}
use sprinter_oss.Completion.{
  EvidenceItem, ReviewDecision, ModelIdentity, has_dedupe_key, evidence_rows, new_finding,
  seen_again, record_finding, completion, complete_job,
}

-- How often the finding of a key was seen.
abbrev pub occurrences_of : String → List Finding → ℕ
occurrences_of key findings = elim (find (has_dedupe_key key) findings) [
  | none ↦ 0
  | some f ↦ f.occurrences
]

length-evidence_rows :
    (settings : Settings) (job : Job) (now : ℕ) (d : Draws) (k : ℕ) (items : List EvidenceItem)
    → length (evidence_rows settings job now d k items) ≡ length items
unfolding evidence_rows
length-evidence_rows settings job now d k [] = refl
length-evidence_rows settings job now d k (item ∷ rest) =
    ap suc (length-evidence_rows settings job now d (suc k) rest)

record_finding-new :
    (key decision_id hex : String) (now first_seen last_seen : ℕ) (fs : List Finding)
    → find (has_dedupe_key key) fs ≡ none
    → record_finding key decision_id now hex first_seen last_seen fs
      ≡ insert (new_finding key decision_id hex first_seen last_seen) fs
unfolding record_finding
record_finding-new key decision_id hex now first_seen last_seen fs e = rw (e, record_finding) refl

record_finding-again :
    (key decision_id hex : String) (now first_seen last_seen : ℕ) (fs : List Finding) (f : Finding)
    → find (has_dedupe_key key) fs ≡ some f
    → record_finding key decision_id now hex first_seen last_seen fs
      ≡ update_where (has_dedupe_key key) (seen_again decision_id now) fs
unfolding record_finding
record_finding-again key decision_id hex now first_seen last_seen fs f e =
    rw (e, record_finding) refl

occurrences_of-insert :
    (k : String) (f : Finding) (fs : List Finding)
    → find (has_dedupe_key f.dedupe_key) fs ≡ none
    → f.occurrences ≡ 1
    → occurrences_of k (insert f fs) ≡ occurrences_of k fs + (if f.dedupe_key == k then 1 else 0)
occurrences_of-insert k f fs gone one = elim (Bool-cases (f.dedupe_key == k)) [
  | inl e ↦
      let gone' : find (has_dedupe_key k) fs ≡ none =
        subst (λ j. find (has_dedupe_key j) fs ≡ none) ((eq_iff f.dedupe_key k).0 e) gone in
      ground (arith, e, gone', one, find-insert (has_dedupe_key k) f fs)
  | inr e ↦ elim (Option-cases (find (has_dedupe_key k) fs)) [
    | inl n ↦ ground (arith, e, n, find-insert (has_dedupe_key k) f fs)
    | inr (g, n) ↦ ground (arith, e, n, find-insert (has_dedupe_key k) f fs)
  ]
]

occurrences_of-update_where :
    (k key decision_id : String) (now : ℕ) (fs : List Finding) (f : Finding)
    → find (has_dedupe_key key) fs ≡ some f
    → occurrences_of k (update_where (has_dedupe_key key) (seen_again decision_id now) fs)
      ≡ occurrences_of k fs + (if key == k then 1 else 0)
unfolding seen_again
occurrences_of-update_where k key decision_id now fs f there =
    elim (Option-cases (find (has_dedupe_key k) fs)) [
      | inl gone ↦ ground (
        arith,
        there,
        gone,
        eq_iff key k,
        find-update_where (has_dedupe_key k) (has_dedupe_key key) (seen_again decision_id now)
            (λ g. refl) fs,
      )
      | inr (g, found) ↦ ground (
        arith,
        found,
        (eq_iff g.dedupe_key k).0 (find_holds (has_dedupe_key k) fs g found),
        eq_iff g.dedupe_key key,
        eq_iff key k,
        find-update_where (has_dedupe_key k) (has_dedupe_key key) (seen_again decision_id now)
            (λ g. refl) fs,
      )
    ]

occurrences_of-record_finding :
    (key decision_id hex : String) (now first_seen last_seen : ℕ) (fs : List Finding) (k : String)
    → occurrences_of k (record_finding key decision_id now hex first_seen last_seen fs)
      ≡ occurrences_of k fs + (if key == k then 1 else 0)
occurrences_of-record_finding key decision_id hex now first_seen last_seen fs k =
    elim (Option-cases (find (has_dedupe_key key) fs)) [
      | inl gone ↦
          ap (occurrences_of k)
            (record_finding-new key decision_id hex now first_seen last_seen fs gone)
          ∙ unfold new_finding in occurrences_of-insert k _ fs gone refl
      | inr (f, there) ↦
          ap (occurrences_of k)
            (record_finding-again key decision_id hex now first_seen last_seen fs f there)
          ∙ occurrences_of-update_where k key decision_id now fs f there
    ]

-- Of a job that is stored, `complete_job` gives an id, counts one more occurrence of the finding of the
-- decision's key and of no other, and adds one row of evidence for each item. Of a job that is not
-- stored, it raises IntegrityError and changes nothing.
pub complete_job_lem :
    (settings : Settings) (job : Job) (decision : ReviewDecision) (evidence : List EvidenceItem)
    (model : ModelIdentity) (d : Draws) (db : Db)
    → let (answer, db') = complete_job settings job decision evidence model d db in
      if exists (has_id job.id) db.jobs
      then ((answer ≡ ok (new_id "decision" (d.uuid 0)))
          × ((k : String)
              → occurrences_of k db'.findings
                ≡ occurrences_of k db.findings + (if decision.finding_key == k then 1 else 0))
          × (length db'.evidence ≡ length db.evidence + length evidence))
      else ((answer ≡ err integrity_error) × (db' ≡ db))
unfolding complete_job completion
complete_job_lem settings job decision evidence model d db =
    elim (Bool-cases (exists (has_id job.id) db.jobs)) [
      | inl e ↦ rw e (
        refl,
        (λ k. occurrences_of-record_finding decision.finding_key _ _ _ _ _ db.findings k),
        length-append db.evidence _
            ∙ ap (λ n. length db.evidence + n) (length-evidence_rows settings job _ d 1 evidence),
      )
      | inr e ↦ rw e (refl, refl)
    ]
