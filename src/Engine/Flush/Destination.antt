-- ===== src/Engine/Flush/Destination.antt =====
-- Where `flush_outbox` of src/sprinter/engine.py sends, and how many items it counts.
use sprinter_oss.Prelude.{
  ℕ, suc, ◌+◌, ◌≤◌, ◌≡◌, ◌∙◌, String, Bool, true, false, ◌&&◌, some, List, [], ◌∷◌, ◌==◌, string_eq,
  eq_iff, arith, length, length-take, All, All-map, inl, inr,
}
use sprinter_oss.Json.{Value}
use sprinter_oss.Dynamic.{subscript}
use sprinter_oss.Errors.{Result, ok, err, Result-cases}
use sprinter_oss.Models.{Draws, Outbox, TeamsInstallation, Db}
use sprinter_oss.Models.Table.{find, exists, select, order_by}
use sprinter_oss.Models.Table.Laws.{All-find, All-select, find_holds}
use sprinter_oss.Models.Table.Keys.{All-order_by}
use sprinter_oss.Delivery.{is_due, pending_deliveries}
use sprinter_oss.Installations.{installations, installation_id}
use sprinter_oss.Engine.{Services}
use sprinter_oss.Engine.Flush.{
  destination, deliver, settle_item, Flushed, counted, flush_items, flush_outbox,
}
use sprinter_oss.Operations.Destinations.{is_enabled_at}

counted_total :
    (answer : Result Value) (n : Flushed)
    → (counted answer n).sent + (counted answer n).failed ≡ suc (n.sent + n.failed)
unfolding counted
counted_total (ok v) n = omega arith
counted_total (err e) n = omega arith

flush_items_total :
    (s : Services) (teams : Bool) (rows : List Outbox) (w : ℕ → Draws) (k : ℕ) (n : Flushed)
    (db : Db)
    → (flush_items s teams rows w k n db).0.sent + (flush_items s teams rows w k n db).0.failed
      ≡ n.sent + n.failed + length rows
unfolding flush_items
flush_items_total s teams [] w k n db = omega arith
flush_items_total s teams (item ∷ rest) w k n db =
    let answer : Result Value = deliver s teams item db in
    flush_items_total s teams rest w (suc k) (counted answer n) (settle_item s item answer (w k) db)
    ∙ omega (arith, counted_total answer n)

-- A flush answers for each item that is due, up to 25 of them, whether it was sent or failed.
pub flush_outbox_total :
    (s : Services) (teams : Bool) (now : ℕ) (w : ℕ → Draws) (db : Db)
    → ((flush_outbox s teams now w db).0.sent + (flush_outbox s teams now w db).0.failed
        ≡ length (pending_deliveries 25 now db))
      × (length (pending_deliveries 25 now db) ≤ 25)
unfolding flush_outbox pending_deliveries
flush_outbox_total s teams now w db = (
  flush_items_total s teams (pending_deliveries 25 now db) w 0 (record { sent = 0; failed = 0 }) db
      ∙ omega arith,
  omega (
    arith,
    length-take 25 (order_by (λ item. item.created_at) (select (is_due now) db.delivery_outbox)),
  ),
)

-- Every row stands for itself when one asks whether there is one like it.
All-exists :
    (i : String) (rows : List TeamsInstallation)
    → All
        (λ row.
          (row.id == i && row.enabled) ≡ true → exists (λ r. r.id == i && r.enabled) rows ≡ true)
        rows
unfolding exists
All-exists i [] = tt
All-exists i (row ∷ rest) =
    (λ e. ground (arith, e), All-map _ (λ r k e. ground (arith, k e)) rest (All-exists i rest))

destination_lem :
    (i : String) (db : Db) (row : TeamsInstallation)
    → destination i db ≡ ok row
    → (find (installation_id i) (installations false db) ≡ some row)
      × (row.enabled ≡ true)
      × (row.active ≡ true)
unfolding destination
destination_lem i db row e = ground (arith, e)

destination-is_enabled_at :
    (i : String) (db : Db) (row : TeamsInstallation)
    → destination i db ≡ ok row
    → is_enabled_at i db ≡ true
unfolding installations
destination-is_enabled_at i db row e =
    let (found, on, _) = destination_lem i db row e in
    let own = find_holds (installation_id i) (installations false db) row found in
    All-find _ (installation_id i) (installations false db) row
      (All-order_by (λ r. r.discovered_at) _ _
        (All-select _ _ db.teams_installations (All-exists i db.teams_installations)))
      found (ground (arith, own, on))

-- A card that is sent: its destination is an active and enabled row of the installations when it is
-- sent, found under the id of the item, and what is answered is what `send_card` answers for the
-- reference of that row and the card of the item's payload.
pub deliver-is_enabled_at :
    (s : Services) (teams : Bool) (item : Outbox) (db : Db) (v : Value)
    → item.channel == "teams" ≡ true
    → deliver s teams item db ≡ ok v
    → (is_enabled_at item.target_id db ≡ true)
      × (row : TeamsInstallation) × (card : Value) × (find
            (installation_id item.target_id)
            (installations false db)
          ≡ some row)
      × (row.id ≡ item.target_id)
      × (row.enabled ≡ true)
      × (row.active ≡ true)
      × (subscript "card" item.payload_json ≡ ok card)
      × (s.send_card row.reference_json card ≡ ok v)
unfolding deliver
deliver-is_enabled_at s teams item db v c e = elim (Result-cases (destination item.target_id db)) [
  | inr (x, h) ↦ absurd (ground (arith, c, e, h))
  | inl (row, h) ↦ elim (Result-cases (subscript "card" item.payload_json)) [
    | inr (x, k) ↦ absurd (ground (arith, c, e, h, k))
    | inl (card, k) ↦
        let (found, on, active) = destination_lem item.target_id db row h in
        (
          destination-is_enabled_at item.target_id db row h,
          row,
          card,
          found,
          (eq_iff row.id item.target_id).0
              (find_holds (installation_id item.target_id) (installations false db) row found),
          on,
          active,
          k,
          ground (arith, c, e, h, k),
        )
  ]
]
