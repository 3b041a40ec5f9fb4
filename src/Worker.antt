-- ===== src/Worker.antt =====
-- The loop of src/sprinter/worker.py.
pub mod Unready
use sprinter_oss.Prelude.{ℕ, ◌+◌, String, Bool, true, false, leb, if◌then◌else◌}
use sprinter_oss.Json.{Value, dict, no_fields}
use sprinter_oss.Errors.{Result, ok, err}
use sprinter_oss.Config.{Settings}
use sprinter_oss.Models.{Draws, Db, seconds}
use sprinter_oss.Health.{heartbeat}
use sprinter_oss.Retention.{purge}
use sprinter_oss.Engine.{Services}
use sprinter_oss.Engine.Process.{Moments, process_next_job}
use sprinter_oss.Engine.Flush.{flush_outbox}

-- The variables that the loop keeps. A monotonic time is a number of microseconds.
pub record Loop : Type 0 where
  pub next_probe : ℕ
  pub next_purge : ℕ
  pub pi_ready : Bool
  pub pi_error : String

unfoldable pub first_loop : Loop
first_loop = record { next_probe = 0; next_purge = 0; pi_ready = true; pi_error = "" }

-- What the outside gives to one round: the monotonic time, the answer of the probe of Pi, the draws
-- of the heartbeat and of the job, the clock and the draws of the flush, and the clock of the purge.
pub record Round : Type 0 where
  pub now : ℕ
  pub probe : Result Value
  pub heartbeat : Draws
  pub job : Moments
  pub flush_now : ℕ
  pub flush : ℕ → Draws
  pub purge_now : ℕ

-- The heartbeat after a probe.
unfoldable pub probed : Services → Settings → Round → Result Value → Loop → Db → Loop × Db
probed s settings r (ok details) loop db = (
  record loop {
    next_probe = r.now + seconds settings.pi_probe_interval_seconds;
    pi_ready = true;
    pi_error = "";
  },
  heartbeat true "" details r.heartbeat db,
)
probed s settings r (err e) loop db = (
  record loop {
    next_probe = r.now + seconds settings.pi_probe_interval_seconds;
    pi_ready = false;
    pi_error = s.message e;
  },
  heartbeat false (s.message e) (dict no_fields) r.heartbeat db,
)

-- The probe, if it is due, and the heartbeat.
unfoldable pub report : Services → Settings → Round → Loop → Db → Loop × Db
unfolding probed
report s settings r loop db =
    if leb loop.next_probe r.now
    then probed s settings r r.probe loop db
    else (loop, heartbeat loop.pi_ready loop.pi_error (dict no_fields) r.heartbeat db)

-- The flush and, if it is due, the purge.
unfoldable pub clean_up :
    (ℕ → ℕ → Bool) → Services → Settings → Bool → Round → Loop → Db → Loop × Db
clean_up before s settings teams r loop db =
    let db1 : Db = (flush_outbox s teams r.flush_now r.flush db).1 in
    if leb loop.next_purge r.now
    then (
      record loop { next_purge = r.now + seconds 86400 },
      (purge before settings r.purge_now db1).1,
    )
    else (loop, db1)

-- The job of the round, if Pi is ready. An exception leaves the loop.
unfoldable pub work : Services → Settings → Round → Loop → Db → Result Bool × Db
work s settings r loop db =
    if loop.pi_ready
    then (let (answer, db1) = process_next_job s settings r.job db in
        elim answer [ ok processed ↦ (ok true, db1) | err e ↦ (err e, db1) ])
    else (ok false, db)

-- The body of the `while`; an exception of `process_next_job` ends the worker.
unfoldable pub round :
    (ℕ → ℕ → Bool) → Services → Settings → Bool → Round → Loop → Db → Result Loop × Db
unfolding report work clean_up
round before s settings teams r loop db =
    let (loop1, db1) = report s settings r loop db in
    let (worked, db2) = work s settings r loop1 db1 in
    elim worked [
      | err e ↦ (err e, db2)
      | ok _ ↦ let (loop2, db3) = clean_up before s settings teams r loop1 db2 in (ok loop2, db3)
    ]
