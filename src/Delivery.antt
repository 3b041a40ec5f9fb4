-- ===== src/Delivery.antt =====
-- The outbox of src/sprinter/db.py (`enqueue`, `pending_deliveries`, `delivery_succeeded`,
-- `delivery_failed`) and the audit log (`audit`).
pub mod Attempts
use sprinter_oss.Prelude.{
  ℕ, ◌+◌, ◌^◌, String, Bool, true, false, ◌&&◌, List, [], ◌∷◌, ◌==◌, string_eq, leb, min,
  if◌then◌else◌, clip, take,
}
use sprinter_oss.Json.{Value, dumps}
use sprinter_oss.Config.{Settings}
use sprinter_oss.Models.{
  Draws, DeliveryStatus, pending, retry, sent, failed, Outbox, AuditEvent, Db, new_id, seconds,
  days,
}
use sprinter_oss.Models.Table.{select, update_where, insert, order_by}

-- `enqueue`: the id of the item.
unfoldable pub enqueue : String → Value → String → Draws → Db → String × Db
enqueue channel payload target_id d db =
    let outbox_id : String = new_id "delivery" (d.uuid 0) in
    (
      outbox_id,
      record db {
        delivery_outbox =
            insert
              (record {
                id = outbox_id;
                channel = channel;
                target_id = target_id;
                payload_json = dumps payload;
                status = pending;
                attempts = 0;
                max_attempts = 10;
                available_at = d.clock 0;
                last_error = "";
                created_at = d.clock 1;
                updated_at = d.clock 2;
              })
              db.delivery_outbox;
      },
    )

unfoldable pub is_open : DeliveryStatus → Bool
is_open pending = true
is_open retry = true
is_open sent = false
is_open failed = false

-- The condition of the select of `pending_deliveries`.
unfoldable pub is_due : ℕ → Outbox → Bool
unfolding is_open
is_due now item = is_open item.status && leb item.available_at now

-- `pending_deliveries(limit)`.
unfoldable pub pending_deliveries : ℕ → ℕ → Db → List Outbox
unfolding is_due
pending_deliveries limit now db =
    take limit (order_by (λ item. item.created_at) (select (is_due now) db.delivery_outbox))

abbrev pub item_id : String → Outbox → Bool
item_id i item = item.id == i

-- `delivery_succeeded`.
unfoldable pub delivered : ℕ → Outbox → Outbox
delivered now item = record item {
  status = sent;
  attempts = item.attempts + 1;
  last_error = "";
  updated_at = now;
}

unfoldable pub delivery_succeeded : String → Draws → Db → Db
unfolding delivered
delivery_succeeded outbox_id d db = record db {
  delivery_outbox = update_where (item_id outbox_id) (delivered (d.clock 0)) db.delivery_outbox;
}

-- The seconds until the next attempt: `min(3600, 2 ** min(attempts, 10))`.
unfoldable pub backoff : ℕ → ℕ
backoff attempts = min 3600 (2 ^ min attempts 10)

-- The values that `delivery_failed` writes, from the number of attempts and the limit of the copy of
-- the item that the worker holds.
unfoldable pub undelivered : ℕ → ℕ → String → Draws → Outbox → Outbox
undelivered attempts max_attempts error d item = record item {
  status = (if leb max_attempts attempts then failed else retry);
  attempts = attempts;
  last_error = clip 4000 error;
  available_at = d.clock 0 + seconds (backoff attempts);
  updated_at = d.clock 1;
}

-- `delivery_failed`.
unfoldable pub delivery_failed : Outbox → String → Draws → Db → Db
unfolding undelivered backoff
delivery_failed item error d db = record db {
  delivery_outbox =
      update_where (item_id item.id) (undelivered (item.attempts + 1) item.max_attempts error d)
        db.delivery_outbox;
}

-- `audit`: the id of the event.
unfoldable pub audit : Settings → String → String → Value → Draws → Db → String × Db
audit settings event_type actor payload d db =
    let event_id : String = new_id "audit" (d.uuid 0) in
    (
      event_id,
      record db {
        audit_events =
            insert
              (record {
                id = event_id;
                event_type = event_type;
                actor = clip 128 actor;
                payload_json = dumps payload;
                created_at = d.clock 1;
                expires_at = d.clock 0 + days settings.audit_retention_days;
              })
              db.audit_events;
      },
    )
