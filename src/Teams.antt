-- ===== src/Teams.antt =====
-- `handle_lifecycle` of src/sprinter/teams/gateway.py.
pub mod Tenants
pub mod Tokens
use sprinter_oss.Prelude.{
  ℕ, String, Bool, true, false, Option, none, some, List, [], ◌∷◌, ◌==◌, string_eq, if◌then◌else◌,
}
use sprinter_oss.Json.{
  Value, Fields, null, bool, num, str, list, dict, no_fields, field, get, get_truthy, truthy,
}
use sprinter_oss.Errors.{Result, ok, err, ◌>>=◌, attribute_error, teams_authentication_error}
use sprinter_oss.Config.{Settings, allowed_teams_tenants}
use sprinter_oss.Models.{Draws, TeamsInstallation, Db}
use sprinter_oss.Models.Table.{exists}
use sprinter_oss.Installations.{Conversation, upsert_installation, deactivate_installation}
use sprinter_oss.Delivery.{audit}
use sprinter_oss.Dynamic.{show, or_empty, get_or_null}

-- What the handler reads of an `Activity`; an attribute that is missing or None is `none` or "".
pub record Activity : Type 0 where
  pub kind : String
  pub action : String
  pub channel_data : Value
  pub conversation : Option Conversation

-- `str(((activity.channel_data or {}).get("tenant") or {}).get("id") or "")`.
unfoldable pub tenant_of : (Value → String) → Value → Result String
unfolding or_empty get_or_null get_truthy show
tenant_of repr channel_data = do
  fields ← or_empty channel_data
  tenant ← or_empty (get_or_null "tenant" fields)
  ok (elim (get_truthy "id" tenant) [ none ↦ "" | some v ↦ show repr v ])

-- The dict that the handler returns.
pub data Lifecycle : Type 0 where
  ignored : Lifecycle
  deactivated : Bool → Lifecycle
  installed : String → Bool → Lifecycle

-- `upsert_installation`, and the answer about its row.
unfoldable pub install : String → Conversation → Draws → Db → Result Lifecycle × Db
install tenant_id c d db =
    let (row, db1) = upsert_installation c tenant_id d db in
    (ok (installed row.id row.enabled), db1)

unfoldable pub remove : String → Conversation → Draws → Db → Result Lifecycle × Db
remove tenant_id c d db =
    let (changed, db1) = deactivate_installation tenant_id c.conversation_id d db in
    (ok (deactivated changed), db1)

-- A call with the conversation of the activity, whose attributes None does not have.
unfoldable pub with_conversation :
    Option Conversation → (Conversation → Result Lifecycle × Db) → Db → Result Lifecycle × Db
with_conversation none f db = (err attribute_error, db)
with_conversation (some c) f db = f c

unfoldable pub conversation_id_or_empty : Option Conversation → String
conversation_id_or_empty none = ""
conversation_id_or_empty (some c) = c.conversation_id

-- The rest of the handler, for a tenant that is allowed.
unfoldable pub dispatch : Settings → String → Activity → Draws → Db → Result Lifecycle × Db
unfolding install remove with_conversation conversation_id_or_empty
dispatch settings tenant_id activity d db =
    if activity.kind == "message"
    then with_conversation activity.conversation
        (λ c. (
          ok ignored,
          (audit settings "teams.message_ignored" "teams"
              (dict (
                field "tenant_id" (str tenant_id)
                  (field "conversation_id" (str c.conversation_id) no_fields)))
              d db).1,
        ))
        db
    else if activity.kind == "installationUpdate"
    then (if activity.action == "remove"
        then with_conversation activity.conversation (λ c. remove tenant_id c d db) db
        else with_conversation activity.conversation (λ c. install tenant_id c d db) db)
    else if activity.kind == "conversationUpdate"
    then with_conversation activity.conversation (λ c. install tenant_id c d db) db
    else (
      ok ignored,
      (audit settings "teams.activity_ignored" "teams"
          (dict (
            field "tenant_id" (str tenant_id) (
              field "conversation_id" (str (conversation_id_or_empty activity.conversation))
                (field "activity_type" (str activity.kind) no_fields))))
          d db).1,
    )

-- `tenant_id not in allowed_teams_tenants`, and the handler on either side.
unfoldable pub guarded : Settings → Result String → Activity → Draws → Db → Result Lifecycle × Db
unfolding dispatch
guarded settings (err e) activity d db = (err e, db)
guarded settings (ok tenant_id) activity d db =
    if exists (λ t. t == tenant_id) (allowed_teams_tenants settings)
    then dispatch settings tenant_id activity d db
    else (err (teams_authentication_error "Teams tenant is not allowed"), db)

-- `handle_lifecycle`.
unfoldable pub handle_lifecycle :
    (Value → String) → Settings → Activity → Draws → Db → Result Lifecycle × Db
unfolding tenant_of guarded
handle_lifecycle repr settings activity d db =
    guarded settings (tenant_of repr activity.channel_data) activity d db
