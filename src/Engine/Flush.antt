-- ===== src/Engine/Flush.antt =====
-- `flush_outbox` of src/sprinter/engine.py, run with no commit of another process in between.
pub mod Destination
use sprinter_oss.Prelude.{
  ℕ, suc, ◌+◌, String, Bool, true, false, not, ◌&&◌, Option, none, some, List, [], ◌∷◌, ◌==◌,
  string_eq, if◌then◌else◌,
}
use Prim.Native.String.{◌++◌ as ◌⧺◌}
use sprinter_oss.Json.{Value}
use sprinter_oss.Errors.{Exception, Result, ok, err, ◌>>=◌, runtime_error}
use sprinter_oss.Config.{Settings}
use sprinter_oss.Models.{Draws, Outbox, TeamsInstallation, Db}
use sprinter_oss.Models.Table.{find}
use sprinter_oss.Delivery.{pending_deliveries, delivery_succeeded, delivery_failed}
use sprinter_oss.Installations.{installations, installation_id}
use sprinter_oss.Engine.{Services}
use sprinter_oss.Dynamic.{subscript}

-- The destination of an item, if it may get messages.
unfoldable pub destination : String → Db → Result TeamsInstallation
destination target_id db = elim (find (installation_id target_id) (installations false db)) [
  | none ↦ err (runtime_error "Teams destination is inactive")
  | some row ↦
      if row.active && row.enabled
      then ok row
      else err (runtime_error "Teams destination is inactive")
]

-- The part of the loop's body that sends the item; `teams` tells whether there is a gateway.
unfoldable pub deliver : Services → Bool → Outbox → Db → Result Value
unfolding destination subscript
deliver s teams item db =
    if item.channel == "teams"
    then (if teams
        then (do
          row ← destination item.target_id db
          card ← subscript "card" item.payload_json
          s.send_card row.reference_json card)
        else err (runtime_error "Teams is not configured"))
    else if item.channel == "splunk_audit"
    then s.post_event item.payload_json
    else err (runtime_error ("unknown outbox channel " ⧺ item.channel))

-- What the loop's body writes.
unfoldable pub settle_item : Services → Outbox → Result Value → Draws → Db → Db
settle_item s item (ok v) d db = delivery_succeeded item.id d db
settle_item s item (err e) d db = delivery_failed item (s.message e) d db

pub record Flushed : Type 0 where
  pub sent : ℕ
  pub failed : ℕ

unfoldable pub counted : Result Value → Flushed → Flushed
counted (ok v) n = record n { sent = suc n.sent }
counted (err e) n = record n { failed = suc n.failed }

-- The loop over the items; the draws of the k-th item are `w k`.
unfoldable pub flush_items :
    Services → Bool → List Outbox → (ℕ → Draws) → ℕ → Flushed → Db → Flushed × Db
unfolding deliver settle_item counted
flush_items s teams [] w k n db = (n, db)
flush_items s teams (item ∷ rest) w k n db =
    let answer : Result Value = deliver s teams item db in
    flush_items s teams rest w (suc k) (counted answer n) (settle_item s item answer (w k) db)

-- `flush_outbox`; `now` is the reading of the clock of `pending_deliveries()`, whose limit is 25.
unfoldable pub flush_outbox : Services → Bool → ℕ → (ℕ → Draws) → Db → Flushed × Db
unfolding flush_items
flush_outbox s teams now w db =
    flush_items s teams (pending_deliveries 25 now db) w 0 (record { sent = 0; failed = 0 }) db
