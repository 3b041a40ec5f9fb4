-- ===== src/Operations/Reach.antt =====
-- What holds of the database after every history of calls.
use sprinter_oss.Prelude.{
  ℕ, ◌≡◌, refl, String, Bool, true, false, ◌&&◌, List, [], ◌∷◌, All, ◌==◌, string_eq,
}
use sprinter_oss.Config.{Settings}
use sprinter_oss.Models.{Db}
use sprinter_oss.Jobs.{recover_abandoned_jobs, retry_job, retried, claimed}
use sprinter_oss.Jobs.Lifecycle.{
  IsJobTable, create_job-IsJobTable, claim_job-IsJobTable, recover_abandoned_jobs-IsJobTable,
  retry_job-IsJobTable, completed-IsJobTable, delete_where-IsJobTable,
}
use sprinter_oss.Completion.{completion}
use sprinter_oss.Delivery.{enqueue, delivery_succeeded, delivery_failed, audit}
use sprinter_oss.Installations.{deactivate_installation}
use sprinter_oss.Health.{heartbeat}
use sprinter_oss.Retention.{purge, deletes, delete_jobs}
use sprinter_oss.Operations.Frames.{
  create_job_cases, claim_job_cases, complete_job_cases, upsert_installation_cases,
  set_installation_enabled_cases,
}
use sprinter_oss.Operations.References.{
  HasReferences, HasReferences-update_jobs, HasReferences-insert_job, complete_job-HasReferences,
  purge-HasReferences,
}
use sprinter_oss.Operations.Destinations.{
  AreActive, upsert_installation-AreActive, deactivate_installation-AreActive,
  set_installation_enabled-AreActive, purge-AreActive, is_enabled_at,
  upsert_installation-is_enabled_at, deactivate_installation-is_enabled_at,
  set_installation_enabled-is_enabled_at, purge-is_enabled_at,
}
use sprinter_oss.Operations.{
  Operation, creates, claims, recovers, retries, completes, enqueues, delivers, fails_delivery,
  audits, upserts, deactivates, sets_enabled, beats, purges, apply, run,
}

-- The invariant of the database: the job table, the foreign keys and the destinations.
pub record IsWellFormed (db : Db) : Type 0 where
  pub jobs : IsJobTable db.jobs
  pub references : HasReferences db
  pub destinations : AreActive db

module _ (before : ℕ → ℕ → Bool) (settings : Settings) where
  apply-jobs :
      (op : Operation) (db : Db)
      → IsJobTable db.jobs
      → IsJobTable (apply before settings op db).jobs
  unfolding apply
  apply-jobs (creates r d seen) db t = create_job-IsJobTable settings r d seen db t
  apply-jobs (claims now seen) db t = claim_job-IsJobTable now seen db t
  apply-jobs (recovers n d) db t = recover_abandoned_jobs-IsJobTable n d db t
  apply-jobs (retries job error delay d) db t = retry_job-IsJobTable job error delay d db t
  apply-jobs (completes job decision evidence model d) db t =
      complete_job_cases (λ x. IsJobTable x.jobs) settings job decision evidence model d db t
        (unfold completion in completed-IsJobTable job.id _ _ db.jobs t)
  apply-jobs (enqueues channel payload target d) db t = unfold enqueue in t
  apply-jobs (delivers i d) db t = unfold delivery_succeeded in t
  apply-jobs (fails_delivery item error d) db t = unfold delivery_failed in t
  apply-jobs (audits event actor payload d) db t = unfold audit in t
  apply-jobs (upserts c tenant d) db t =
      upsert_installation_cases (λ x. IsJobTable x.jobs) c tenant d db (λ rows. t)
  apply-jobs (deactivates tenant conversation d) db t = unfold deactivate_installation in t
  apply-jobs (sets_enabled i enabled d) db t =
      set_installation_enabled_cases (λ x. IsJobTable x.jobs) i enabled d db t (λ rows. t)
  apply-jobs (beats ready error details d) db t = unfold heartbeat in t
  apply-jobs (purges now) db t =
      unfold purge deletes delete_jobs in delete_where-IsJobTable _ db.jobs t

  apply-references :
      (op : Operation) (db : Db) → HasReferences db → HasReferences (apply before settings op db)
  unfolding apply
  apply-references (creates r d seen) db h =
      create_job_cases HasReferences settings r d seen db h
        (λ job. HasReferences-insert_job db job h)
  apply-references (claims now seen) db h =
      claim_job_cases HasReferences now seen db h
        (λ i. unfold claimed in HasReferences-update_jobs db _ _ (λ j job. refl) h)
  apply-references (recovers n d) db h =
      unfold recover_abandoned_jobs in HasReferences-update_jobs db _ _ (λ j job. refl) h
  apply-references (retries job error delay d) db h =
      unfold retry_job retried in HasReferences-update_jobs db _ _ (λ j job. refl) h
  apply-references (completes job decision evidence model d) db h =
      complete_job-HasReferences settings job decision evidence model d db h
  apply-references (enqueues channel payload target d) db h =
      unfold enqueue in
      (record { evidence = h.evidence; decisions = h.decisions; findings = h.findings })
  apply-references (delivers i d) db h =
      unfold delivery_succeeded in
      (record { evidence = h.evidence; decisions = h.decisions; findings = h.findings })
  apply-references (fails_delivery item error d) db h =
      unfold delivery_failed in
      (record { evidence = h.evidence; decisions = h.decisions; findings = h.findings })
  apply-references (audits event actor payload d) db h =
      unfold audit in
      (record { evidence = h.evidence; decisions = h.decisions; findings = h.findings })
  apply-references (upserts c tenant d) db h =
      upsert_installation_cases HasReferences c tenant d db
        (λ rows. (record { evidence = h.evidence; decisions = h.decisions; findings = h.findings }))
  apply-references (deactivates tenant conversation d) db h =
      unfold deactivate_installation in
      (record { evidence = h.evidence; decisions = h.decisions; findings = h.findings })
  apply-references (sets_enabled i enabled d) db h =
      set_installation_enabled_cases HasReferences i enabled d db h
        (λ rows. (record { evidence = h.evidence; decisions = h.decisions; findings = h.findings }))
  apply-references (beats ready error details d) db h =
      unfold heartbeat in
      (record { evidence = h.evidence; decisions = h.decisions; findings = h.findings })
  apply-references (purges now) db h = purge-HasReferences before settings now db h

  apply-destinations :
      (op : Operation) (db : Db) → AreActive db → AreActive (apply before settings op db)
  unfolding apply
  apply-destinations (creates r d seen) db a =
      create_job_cases AreActive settings r d seen db a (λ job. a)
  apply-destinations (claims now seen) db a = claim_job_cases AreActive now seen db a (λ i. a)
  apply-destinations (recovers n d) db a = unfold recover_abandoned_jobs in a
  apply-destinations (retries job error delay d) db a = unfold retry_job in a
  apply-destinations (completes job decision evidence model d) db a =
      complete_job_cases AreActive settings job decision evidence model d db a
        (unfold completion in a)
  apply-destinations (enqueues channel payload target d) db a = unfold enqueue in a
  apply-destinations (delivers i d) db a = unfold delivery_succeeded in a
  apply-destinations (fails_delivery item error d) db a = unfold delivery_failed in a
  apply-destinations (audits event actor payload d) db a = unfold audit in a
  apply-destinations (upserts c tenant d) db a = upsert_installation-AreActive c tenant d db a
  apply-destinations (deactivates tenant conversation d) db a =
      deactivate_installation-AreActive tenant conversation d db a
  apply-destinations (sets_enabled i enabled d) db a =
      set_installation_enabled-AreActive i enabled d db a
  apply-destinations (beats ready error details d) db a = unfold heartbeat in a
  apply-destinations (purges now) db a = purge-AreActive before settings now db a

  apply-IsWellFormed :
      (op : Operation) (db : Db) → IsWellFormed db → IsWellFormed (apply before settings op db)
  apply-IsWellFormed op db w = record {
    jobs = apply-jobs op db w.jobs;
    references = apply-references op db w.references;
    destinations = apply-destinations op db w.destinations;
  }

  -- Every history of calls keeps a database well formed: the ids and the idempotency keys of the jobs
  -- are distinct; each job's status agrees with its times, its result, its error and its attempts;
  -- evidence and decisions refer to a stored job and findings to a stored decision; and an enabled
  -- destination is active.
  pub run-IsWellFormed :
      (ops : List Operation) (db : Db) → IsWellFormed db → IsWellFormed (run before settings ops db)
  unfolding run
  run-IsWellFormed [] db w = w
  run-IsWellFormed (op ∷ ops) db w =
      run-IsWellFormed ops (apply before settings op db) (apply-IsWellFormed op db w)

-- Does the call enable the destination?
abbrev pub enables : String → Operation → Bool
enables i (sets_enabled j enabled d) = j == i && enabled
enables i _ = false

module _ (before : ℕ → ℕ → Bool) (settings : Settings) (i : String) where
  apply-is_enabled_at :
      (op : Operation) (db : Db)
      → enables i op ≡ false
      → is_enabled_at i (apply before settings op db) ≡ true
      → is_enabled_at i db ≡ true
  unfolding apply
  apply-is_enabled_at (creates r d seen) db n e =
      create_job_cases (λ x. is_enabled_at i x ≡ true → is_enabled_at i db ≡ true) settings r d seen
        db (λ k. k) (λ job k. k) e
  apply-is_enabled_at (claims now seen) db n e =
      claim_job_cases (λ x. is_enabled_at i x ≡ true → is_enabled_at i db ≡ true) now seen db
        (λ k. k) (λ j k. k) e
  apply-is_enabled_at (recovers k d) db n e = unfold recover_abandoned_jobs in e
  apply-is_enabled_at (retries job error delay d) db n e = unfold retry_job in e
  apply-is_enabled_at (completes job decision evidence model d) db n e =
      complete_job_cases (λ x. is_enabled_at i x ≡ true → is_enabled_at i db ≡ true) settings job
        decision evidence model d db (λ k. k) (unfold completion in (λ k. k)) e
  apply-is_enabled_at (enqueues channel payload target d) db n e = unfold enqueue in e
  apply-is_enabled_at (delivers k d) db n e = unfold delivery_succeeded in e
  apply-is_enabled_at (fails_delivery item error d) db n e = unfold delivery_failed in e
  apply-is_enabled_at (audits event actor payload d) db n e = unfold audit in e
  apply-is_enabled_at (upserts c tenant d) db n e =
      upsert_installation-is_enabled_at i c tenant d db e
  apply-is_enabled_at (deactivates tenant conversation d) db n e =
      deactivate_installation-is_enabled_at i tenant conversation d db e
  apply-is_enabled_at (sets_enabled j enabled d) db n e =
      set_installation_enabled-is_enabled_at i j enabled d db n e
  apply-is_enabled_at (beats ready error details d) db n e = unfold heartbeat in e
  apply-is_enabled_at (purges now) db n e = purge-is_enabled_at i before settings now db e

  -- A destination that is enabled after a history without a call that enables it was enabled before.
  pub run-is_enabled_at :
      (ops : List Operation) (db : Db)
      → All (λ op. enables i op ≡ false) ops
      → is_enabled_at i (run before settings ops db) ≡ true
      → is_enabled_at i db ≡ true
  unfolding run
  run-is_enabled_at [] db n e = e
  run-is_enabled_at (op ∷ ops) db n e =
      apply-is_enabled_at op db n.0 (run-is_enabled_at ops (apply before settings op db) n.1 e)
