-- ===== src/Operations/Frames.antt =====
-- The database that a call with several branches leaves, one rule for each such call.
use sprinter_oss.Prelude.{
  ℕ, String, Bool, not, ◌&&◌, ◌||◌, List, Option-cases, Bool-cases, inl, inr, string_eq,
}
use sprinter_oss.Config.{Settings}
use sprinter_oss.Models.{Draws, Job, TeamsInstallation, Db}
use sprinter_oss.Models.Table.{exists, find, insert, update_where}
use sprinter_oss.Jobs.{
  JobRequest, create_job, flush_job, claim_job, claim_row, candidate, has_id, has_key, same_request,
  claimed, still_waiting,
}
use sprinter_oss.Completion.{EvidenceItem, ReviewDecision, ModelIdentity, complete_job, completion}
use sprinter_oss.Installations.{
  Conversation, is_destination, installation_id, upsert_installation, set_installation_enabled,
}

module _ {ℓ} (P : Db → Type ℓ) where
  flush_job_cases :
      (job : Job) (db : Db)
      → P db
      → P (record db { jobs = insert job db.jobs })
      → P (flush_job job db).1
  unfolding flush_job
  flush_job_cases job db same new =
      elim (Bool-cases
        (exists (has_id job.id) db.jobs || exists (has_key job.idempotency_key) db.jobs)) [
          | inl e ↦ elim (Option-cases (find (has_key job.idempotency_key) db.jobs)) [
            | inl f ↦ rw (e, f) same
            | inr (x, f) ↦ rw (e, f) same
          ]
          | inr e ↦ rw e new
        ]

  pub create_job_cases :
      (settings : Settings) (r : JobRequest) (d : Draws) (seen db : Db)
      → P db
      → ((job : Job) → P (record db { jobs = insert job db.jobs }))
      → P (create_job settings r d seen db).1
  unfolding create_job
  create_job_cases settings r d seen db same new =
      elim (Option-cases (find (has_key r.idempotency_key) seen.jobs)) [
        | inl f ↦ rw (f, create_job) (flush_job_cases _ db same (new _))
        | inr (x, f) ↦ elim (Bool-cases (same_request x r)) [
          | inl e ↦ rw (f, create_job, e) same
          | inr e ↦ rw (f, create_job, e) same
        ]
      ]

  pub claim_job_cases :
      (now : ℕ) (seen db : Db)
      → P db
      → ((i : String)
          → P (record db { jobs = update_where (still_waiting i) (claimed now) db.jobs }))
      → P (claim_job now seen db).1
  unfolding claim_job claim_row
  claim_job_cases now seen db same new = elim (Option-cases (candidate now seen)) [
    | inl f ↦ rw (f, claim_job) same
    | inr (c, f) ↦ rw (f, claim_job) (new c.id)
  ]

  pub complete_job_cases :
      (settings : Settings) (job : Job) (decision : ReviewDecision) (items : List EvidenceItem)
      (model : ModelIdentity) (d : Draws) (db : Db)
      → P db
      → P (completion settings job decision items model d db)
      → P (complete_job settings job decision items model d db).1
  unfolding complete_job
  complete_job_cases settings job decision items model d db same new =
      elim (Bool-cases (exists (has_id job.id) db.jobs)) [ inl e ↦ rw e new | inr e ↦ rw e same ]

  pub upsert_installation_cases :
      (c : Conversation) (tenant_id : String) (d : Draws) (db : Db)
      → ((rows : List TeamsInstallation) → P (record db { teams_installations = rows }))
      → P (upsert_installation c tenant_id d db).1
  unfolding upsert_installation
  upsert_installation_cases c tenant_id d db new =
      elim (Option-cases
        (find (is_destination tenant_id c.conversation_id) db.teams_installations)) [
          | inl e ↦ rw (e, upsert_installation) (new _)
          | inr (row, e) ↦ rw (e, upsert_installation) (new _)
        ]

  pub set_installation_enabled_cases :
      (i : String) (enabled : Bool) (d : Draws) (db : Db)
      → P db
      → ((rows : List TeamsInstallation) → P (record db { teams_installations = rows }))
      → P (set_installation_enabled i enabled d db).1
  unfolding set_installation_enabled
  set_installation_enabled_cases i enabled d db same new =
      elim (Option-cases (find (installation_id i) db.teams_installations)) [
        | inl e ↦ rw (e, set_installation_enabled) same
        | inr (row, e) ↦ elim (Bool-cases (enabled && not row.active)) [
          | inl f ↦ rw (e, set_installation_enabled, f) same
          | inr f ↦ rw (e, set_installation_enabled, f) (new _)
        ]
      ]
