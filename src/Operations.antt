-- ===== src/Operations.antt =====
-- The operations of `Database` in src/sprinter/db.py as one type, and what a history of them does.
-- The children prove the invariants of every history.
mod Frames
pub mod References
pub mod Destinations
pub mod Reach
use sprinter_oss.Prelude.{ℕ, String, Bool, List, [], ◌∷◌}
use sprinter_oss.Json.{Value}
use sprinter_oss.Config.{Settings}
use sprinter_oss.Models.{Draws, Job, Outbox, Db}
use sprinter_oss.Jobs.{JobRequest, create_job, claim_job, recover_abandoned_jobs, retry_job}
use sprinter_oss.Completion.{EvidenceItem, ReviewDecision, ModelIdentity, complete_job}
use sprinter_oss.Delivery.{enqueue, delivery_succeeded, delivery_failed, audit}
use sprinter_oss.Installations.{
  Conversation, upsert_installation, deactivate_installation, set_installation_enabled,
}
use sprinter_oss.Health.{heartbeat}
use sprinter_oss.Retention.{purge}

-- A call with its arguments. `creates` and `claims` carry the database that their select saw.
pub data Operation : Type 0 where
  creates : JobRequest → Draws → Db → Operation
  claims : ℕ → Db → Operation
  recovers : ℕ → Draws → Operation
  retries : Job → Value → ℕ → Draws → Operation
  completes : Job → ReviewDecision → List EvidenceItem → ModelIdentity → Draws → Operation
  enqueues : String → Value → String → Draws → Operation
  delivers : String → Draws → Operation
  fails_delivery : Outbox → String → Draws → Operation
  audits : String → String → Value → Draws → Operation
  upserts : Conversation → String → Draws → Operation
  deactivates : String → String → Draws → Operation
  sets_enabled : String → Bool → Draws → Operation
  beats : Bool → String → Value → Draws → Operation
  purges : ℕ → Operation

-- The database that a call leaves; one that raises leaves the database as it was.
unfoldable pub apply : (ℕ → ℕ → Bool) → Settings → Operation → Db → Db
apply before settings (creates r d seen) db = (create_job settings r d seen db).1
apply before settings (claims now seen) db = (claim_job now seen db).1
apply before settings (recovers n d) db = (recover_abandoned_jobs n d db).1
apply before settings (retries job error delay d) db = retry_job job error delay d db
apply before settings (completes job decision evidence model d) db =
    (complete_job settings job decision evidence model d db).1
apply before settings (enqueues channel payload target d) db =
    (enqueue channel payload target d db).1
apply before settings (delivers i d) db = delivery_succeeded i d db
apply before settings (fails_delivery item error d) db = delivery_failed item error d db
apply before settings (audits event actor payload d) db =
    (audit settings event actor payload d db).1
apply before settings (upserts c tenant d) db = (upsert_installation c tenant d db).1
apply before settings (deactivates tenant conversation d) db =
    (deactivate_installation tenant conversation d db).1
apply before settings (sets_enabled i enabled d) db = (set_installation_enabled i enabled d db).1
apply before settings (beats ready error details d) db = heartbeat ready error details d db
apply before settings (purges now) db = (purge before settings now db).1

-- A history, oldest call first.
unfoldable pub run : (ℕ → ℕ → Bool) → Settings → List Operation → Db → Db
run before settings [] db = db
run before settings (op ∷ ops) db = run before settings ops (apply before settings op db)
