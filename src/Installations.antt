-- ===== src/Installations.antt =====
-- The Teams destinations of src/sprinter/db.py (`upsert_installation`, `deactivate_installation`,
-- `installations`, `set_installation_enabled`) and the lifecycle handler of
-- src/sprinter/teams/gateway.py.
use sprinter_oss.Prelude.{
  ℕ, String, Bool, true, false, not, ◌&&◌, ◌||◌, Option, none, some, List, ◌==◌, string_eq, ltb,
  if◌then◌else◌,
}
use sprinter_oss.Models.{Draws, TeamsInstallation, Db, new_id}
use sprinter_oss.Models.Table.{
  select, find, update_where, update_found, count_where, insert, order_by,
}

-- What `upsert_installation` reads of the activity: `conversation.id`, `service_url`, the text of
-- the conversation reference and `str(conversation_type or "personal")`.
pub record Conversation : Type 0 where
  pub conversation_id : String
  pub service_url : String
  pub reference_json : String
  pub scope : String

abbrev pub is_destination : String → String → TeamsInstallation → Bool
is_destination tenant_id conversation_id row =
    row.tenant_id == tenant_id && row.conversation_id == conversation_id

-- The values that a repeated lifecycle event writes; `enabled` is left alone.
unfoldable pub refreshed : Conversation → ℕ → TeamsInstallation → TeamsInstallation
refreshed c now row = record row {
  service_url = c.service_url;
  scope = c.scope;
  reference_json = c.reference_json;
  active = true;
  last_seen_at = now;
}

-- The row of a destination that is seen for the first time: active, and not enabled.
unfoldable pub discovered : Conversation → String → Draws → TeamsInstallation
discovered c tenant_id d = record {
  id = new_id "teams" (d.uuid 0);
  tenant_id = tenant_id;
  conversation_id = c.conversation_id;
  service_url = c.service_url;
  scope = c.scope;
  reference_json = c.reference_json;
  enabled = false;
  active = true;
  discovered_at = d.clock 0;
  last_seen_at = d.clock 1;
}

-- `upsert_installation`: the row it returns.
unfoldable pub upsert_installation : Conversation → String → Draws → Db → TeamsInstallation × Db
unfolding refreshed discovered
upsert_installation c tenant_id d db =
    elim (find (is_destination tenant_id c.conversation_id) db.teams_installations) [
      | none ↦ (
        discovered c tenant_id d,
        record db {
          teams_installations = insert (discovered c tenant_id d) db.teams_installations;
        },
      )
      | some row ↦ (
        refreshed c (d.clock 0) row,
        record db {
          teams_installations =
              update_found (is_destination tenant_id c.conversation_id) (refreshed c (d.clock 0))
                db.teams_installations;
        },
      )
    ]

-- `deactivate_installation`: was there a row?
unfoldable pub deactivate_installation : String → String → Draws → Db → Bool × Db
deactivate_installation tenant_id conversation_id d db = (
  ltb 0 (count_where (is_destination tenant_id conversation_id) db.teams_installations),
  record db {
    teams_installations =
        update_where (is_destination tenant_id conversation_id)
          (λ row. record row { enabled = false; active = false; last_seen_at = d.clock 0 })
          db.teams_installations;
  },
)

-- `installations(enabled_only)`.
unfoldable pub installations : Bool → Db → List TeamsInstallation
installations enabled_only db =
    order_by (λ row. row.discovered_at)
      (select (λ row. not enabled_only || (row.enabled && row.active)) db.teams_installations)

abbrev pub installation_id : String → TeamsInstallation → Bool
installation_id i row = row.id == i

-- `set_installation_enabled`: the row, or `none` where it is missing or inactive.
unfoldable pub set_installation_enabled : String → Bool → Draws → Db → Option TeamsInstallation × Db
set_installation_enabled i enabled d db = elim (find (installation_id i) db.teams_installations) [
  | none ↦ (none, db)
  | some row ↦ if enabled && not row.active then (none, db) else (
    some (record row { enabled = enabled; last_seen_at = d.clock 0 }),
    record db {
      teams_installations =
          update_found (installation_id i)
            (λ row'. record row' { enabled = enabled; last_seen_at = d.clock 0 })
            db.teams_installations;
    },
  )
]
