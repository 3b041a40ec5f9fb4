-- ===== src/Worker/Unready.antt =====
-- What a round of src/sprinter/worker.py does while Pi is not ready.
use sprinter_oss.Prelude.{ℕ, suc, ◌+◌, ◌≤◌, ◌<◌, ◌≡◌, refl, ◌∙◌, Bool, false, List, [], ◌∷◌, arith}
use sprinter_oss.Json.{Value, dict, no_fields}
use sprinter_oss.Errors.{Exception, Result, ok, err}
use sprinter_oss.Config.{Settings}
use sprinter_oss.Models.{Draws, Db, Outbox, seconds}
use sprinter_oss.Health.{heartbeat}
use sprinter_oss.Delivery.{delivery_succeeded, delivery_failed, pending_deliveries}
use sprinter_oss.Engine.{Services}
use sprinter_oss.Engine.Flush.{Flushed, deliver, counted, settle_item, flush_items, flush_outbox}
use sprinter_oss.Worker.{Loop, Round, probed, report, clean_up, work, round}

settle_item-jobs :
    (s : Services) (item : Outbox) (answer : Result Value) (d : Draws) (db : Db)
    → (settle_item s item answer d db).jobs ≡ db.jobs
unfolding settle_item delivery_succeeded delivery_failed
settle_item-jobs s item (ok v) d db = refl
settle_item-jobs s item (err e) d db = refl

flush_items-jobs :
    (s : Services) (teams : Bool) (rows : List Outbox) (w : ℕ → Draws) (k : ℕ) (n : Flushed)
    (db : Db)
    → (flush_items s teams rows w k n db).1.jobs ≡ db.jobs
unfolding flush_items
flush_items-jobs s teams [] w k n db = refl
flush_items-jobs s teams (item ∷ rest) w k n db =
    flush_items-jobs s teams rest w (suc k) (counted (deliver s teams item db) n)
      (settle_item s item (deliver s teams item db) (w k) db)
    ∙ settle_item-jobs s item (deliver s teams item db) (w k) db

flush_outbox-jobs :
    (s : Services) (teams : Bool) (now : ℕ) (w : ℕ → Draws) (db : Db)
    → (flush_outbox s teams now w db).1.jobs ≡ db.jobs
unfolding flush_outbox
flush_outbox-jobs s teams now w db =
    flush_items-jobs s teams (pending_deliveries 25 now db) w 0 (record { sent = 0; failed = 0 }) db

-- A round whose probe is due and fails goes on with Pi marked as not ready and the next probe put
-- off; unless a purge is due, it leaves every job as it was.
pub round_unready :
    (before : ℕ → ℕ → Bool) (s : Services) (settings : Settings) (teams : Bool) (r : Round)
    (loop : Loop) (db : Db) (e : Exception)
    → loop.next_probe ≤ r.now
    → r.now < loop.next_purge
    → r.probe ≡ err e
    → ((round before s settings teams r loop db).0
        ≡ ok (record loop {
          next_probe = r.now + seconds settings.pi_probe_interval_seconds;
          pi_ready = false;
          pi_error = s.message e;
        }))
      × ((round before s settings teams r loop db).1.jobs ≡ db.jobs)
unfolding round report work clean_up probed heartbeat
round_unready before s settings teams r loop db e due later fails = ground (
  arith,
  fails,
  flush_outbox-jobs s teams r.flush_now r.flush
      (heartbeat false (s.message e) (dict no_fields) r.heartbeat db),
)
