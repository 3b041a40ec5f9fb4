-- ===== src/Teams/Tenants.antt =====
-- Whose events change the destinations, in src/sprinter/teams/gateway.py.
use sprinter_oss.Prelude.{
  ◌≡◌, refl, String, true, false, Option, none, some, arith, ◌==◌, string_eq, Bool-cases, inl, inr,
}
use sprinter_oss.Json.{Value}
use sprinter_oss.Errors.{Result, ok, err, teams_authentication_error, Result-cases}
use sprinter_oss.Config.{Settings, allowed_teams_tenants}
use sprinter_oss.Models.{Draws, Db}
use sprinter_oss.Models.Table.{exists}
use sprinter_oss.Installations.{Conversation}
use sprinter_oss.Delivery.{audit}
use sprinter_oss.Operations.Destinations.{
  is_enabled_at, upsert_installation-is_enabled_at, deactivate_installation-is_enabled_at,
}
use sprinter_oss.Teams.{
  Activity, Lifecycle, tenant_of, install, remove, with_conversation, dispatch, guarded,
  handle_lifecycle,
}

with_conversation-is_enabled_at :
    (i : String) (c : Option Conversation) (f : Conversation → Result Lifecycle × Db) (db : Db)
    → ((c : Conversation) → is_enabled_at i (f c).1 ≡ true → is_enabled_at i db ≡ true)
    → is_enabled_at i (with_conversation c f db).1 ≡ true
    → is_enabled_at i db ≡ true
unfolding with_conversation
with_conversation-is_enabled_at i none f db h e = e
with_conversation-is_enabled_at i (some c) f db h e = h c e

dispatch-is_enabled_at :
    (i : String) (settings : Settings) (tenant_id : String) (activity : Activity) (d : Draws)
    (db : Db)
    → is_enabled_at i (dispatch settings tenant_id activity d db).1 ≡ true
    → is_enabled_at i db ≡ true
unfolding dispatch install remove audit
dispatch-is_enabled_at i settings tenant_id activity d db e =
    elim (Bool-cases (activity.kind == "message")) [
      | inl m ↦
          with_conversation-is_enabled_at i activity.conversation _ db (λ c k. k)
            (rw (m, dispatch) at e)
      | inr m ↦ elim (Bool-cases (activity.kind == "installationUpdate")) [
        | inl n ↦ elim (Bool-cases (activity.action == "remove")) [
          | inl r ↦
              with_conversation-is_enabled_at i activity.conversation _ db
                (λ c k. deactivate_installation-is_enabled_at i tenant_id c.conversation_id d db k)
                (rw (m, n, r, dispatch) at e)
          | inr r ↦
              with_conversation-is_enabled_at i activity.conversation _ db
                (λ c k. upsert_installation-is_enabled_at i c tenant_id d db k)
                (rw (m, n, r, dispatch) at e)
        ]
        | inr n ↦ elim (Bool-cases (activity.kind == "conversationUpdate")) [
          | inl r ↦
              with_conversation-is_enabled_at i activity.conversation _ db
                (λ c k. upsert_installation-is_enabled_at i c tenant_id d db k)
                (rw (m, n, r, dispatch) at e)
          | inr r ↦ rw (m, n, r, dispatch) at e
        ]
      ]
    ]

-- No lifecycle event enables a destination: one that is enabled after the event was enabled before.
pub handle_lifecycle-is_enabled_at :
    (repr : Value → String) (settings : Settings) (activity : Activity) (d : Draws) (db : Db)
    (i : String)
    → is_enabled_at i (handle_lifecycle repr settings activity d db).1 ≡ true
    → is_enabled_at i db ≡ true
unfolding handle_lifecycle guarded
handle_lifecycle-is_enabled_at repr settings activity d db i e =
    elim (Result-cases (tenant_of repr activity.channel_data)) [
      | inr (x, h) ↦ ground (arith, h, e)
      | inl (t, h) ↦ elim (Bool-cases (exists (λ a. a == t) (allowed_teams_tenants settings))) [
        | inl a ↦ dispatch-is_enabled_at i settings t activity d db (ground (arith, h, a, e))
        | inr a ↦ ground (arith, h, a, e)
      ]
    ]

-- An event whose tenant is not allowed raises TeamsAuthenticationError and changes nothing.
pub handle_lifecycle_refused :
    (repr : Value → String) (settings : Settings) (activity : Activity) (d : Draws) (db : Db)
    (t : String)
    → tenant_of repr activity.channel_data ≡ ok t
    → exists (λ a. a == t) (allowed_teams_tenants settings) ≡ false
    → handle_lifecycle repr settings activity d db
      ≡ (err (teams_authentication_error "Teams tenant is not allowed"), db)
unfolding handle_lifecycle guarded
handle_lifecycle_refused repr settings activity d db t e h =
    rw (e, handle_lifecycle, h, guarded) refl
