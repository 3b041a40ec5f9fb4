-- ===== src/Operations/Destinations.antt =====
-- Teams destinations: only an active one is enabled, and only `set_installation_enabled` enables one.
use mathlib.Core.Option.{some_inj}
use sprinter_oss.Prelude.{
  ℕ, ◌≡◌, refl, subst, sym, ◌∙◌, String, Bool, true, false, not, ◌&&◌, arith, All, Bool-cases,
  Option-cases, inl, inr, ◌==◌, string_eq, eq_iff,
}
use sprinter_oss.Config.{Settings}
use sprinter_oss.Models.{Draws, TeamsInstallation, Db}
use sprinter_oss.Models.Table.{exists, find, delete_where}
use sprinter_oss.Models.Table.Laws.{
  All-update_where, All-update_found, exists_of_update_found, All-insert, All-delete_where,
  exists_of_update_where, exists_of_insert, exists_of_select,
}
use sprinter_oss.Installations.{
  Conversation, is_destination, upsert_installation, deactivate_installation, installation_id,
  set_installation_enabled,
}
use sprinter_oss.Retention.{purge, deletes, delete_jobs}

-- An enabled destination is active.
abbrev pub IsActiveIfEnabled : TeamsInstallation → Type 0
IsActiveIfEnabled row = row.enabled ≡ true → row.active ≡ true

abbrev pub AreActive : Db → Type 0
AreActive db = All IsActiveIfEnabled db.teams_installations

pub upsert_installation-AreActive :
    (c : Conversation) (tenant_id : String) (d : Draws) (db : Db)
    → AreActive db
    → AreActive (upsert_installation c tenant_id d db).1
unfolding upsert_installation
upsert_installation-AreActive c tenant_id d db a =
    elim (Option-cases (find (is_destination tenant_id c.conversation_id) db.teams_installations)) [
      | inl e ↦ rw (e, upsert_installation) (All-insert _ _ db.teams_installations (λ f. refl) a)
      | inr (row, e) ↦
          rw (e, upsert_installation)
            (All-update_found _ _ _ db.teams_installations (λ r _ _ _. refl) a)
    ]

pub deactivate_installation-AreActive :
    (tenant_id conversation_id : String) (d : Draws) (db : Db)
    → AreActive db
    → AreActive (deactivate_installation tenant_id conversation_id d db).1
unfolding deactivate_installation
deactivate_installation-AreActive tenant_id conversation_id d db a =
    All-update_where _ _ _ (λ r _ _ f. f) db.teams_installations a

found_active :
    (enabled : Bool) (row r : TeamsInstallation)
    → row ≡ r
    → (enabled && not row.active) ≡ false
    → enabled ≡ true
    → r.active ≡ true
found_active enabled row r same f on =
    subst (λ (s : TeamsInstallation). s.active ≡ true) same (ground arith)

pub set_installation_enabled-AreActive :
    (i : String) (enabled : Bool) (d : Draws) (db : Db)
    → AreActive db
    → AreActive (set_installation_enabled i enabled d db).1
unfolding set_installation_enabled
set_installation_enabled-AreActive i enabled d db a =
    elim (Option-cases (find (installation_id i) db.teams_installations)) [
      | inl e ↦ rw (e, set_installation_enabled) a
      | inr (row, e) ↦ elim (Bool-cases (enabled && not row.active)) [
        | inl f ↦ rw (e, set_installation_enabled, f) a
        | inr f ↦
            rw (e, set_installation_enabled, f)
              (All-update_found _ _ _ db.teams_installations
                (λ r g _ on. found_active enabled row r (some_inj.0 (sym e ∙ g)) f on) a)
      ]
    ]

pub purge-AreActive :
    (before : ℕ → ℕ → Bool) (settings : Settings) (now : ℕ) (db : Db)
    → AreActive db
    → AreActive (purge before settings now db).1
unfolding purge deletes delete_jobs
purge-AreActive before settings now db a = All-delete_where _ _ db.teams_installations a

-- Is the destination enabled?
abbrev pub is_enabled_at : String → Db → Bool
is_enabled_at i db = exists (λ row. row.id == i && row.enabled) db.teams_installations

pub upsert_installation-is_enabled_at :
    (i : String) (c : Conversation) (tenant_id : String) (d : Draws) (db : Db)
    → is_enabled_at i (upsert_installation c tenant_id d db).1 ≡ true
    → is_enabled_at i db ≡ true
unfolding upsert_installation
upsert_installation-is_enabled_at i c tenant_id d db e =
    elim (Option-cases (find (is_destination tenant_id c.conversation_id) db.teams_installations)) [
      | inl f ↦
          exists_of_insert _ _ db.teams_installations (rw (f, upsert_installation) at e)
            (ground arith)
      | inr (row, f) ↦
          exists_of_update_found _ _ _ (λ r _ k. k) db.teams_installations
            (rw (f, upsert_installation) at e)
    ]

pub deactivate_installation-is_enabled_at :
    (i tenant_id conversation_id : String) (d : Draws) (db : Db)
    → is_enabled_at i (deactivate_installation tenant_id conversation_id d db).1 ≡ true
    → is_enabled_at i db ≡ true
unfolding deactivate_installation
deactivate_installation-is_enabled_at i tenant_id conversation_id d db e =
    exists_of_update_where _ _ _ (λ r k. ground arith) db.teams_installations e

not_enabled :
    (i j : String) (enabled : Bool) (r : TeamsInstallation)
    → (j == i && enabled) ≡ false
    → installation_id j r ≡ true
    → (r.id == i && enabled) ≡ true
    → ⊥
not_enabled i j enabled r other own k = ground (arith, eq_iff r.id i, eq_iff r.id j, eq_iff j i)

-- `set_installation_enabled` enables no row but that of its id, and that only if it is told to.
pub set_installation_enabled-is_enabled_at :
    (i j : String) (enabled : Bool) (d : Draws) (db : Db)
    → (j == i && enabled) ≡ false
    → is_enabled_at i (set_installation_enabled j enabled d db).1 ≡ true
    → is_enabled_at i db ≡ true
unfolding set_installation_enabled
set_installation_enabled-is_enabled_at i j enabled d db ne e =
    elim (Option-cases (find (installation_id j) db.teams_installations)) [
      | inl f ↦ (rw (f, set_installation_enabled) at e)
      | inr (row, f) ↦ elim (Bool-cases (enabled && not row.active)) [
        | inl g ↦ (rw (f, set_installation_enabled, g) at e)
        | inr g ↦
            exists_of_update_found _ _ _ (λ r own k. absurd (not_enabled i j enabled r ne own k))
              db.teams_installations (rw (f, set_installation_enabled, g) at e)
      ]
    ]

pub purge-is_enabled_at :
    (i : String) (before : ℕ → ℕ → Bool) (settings : Settings) (now : ℕ) (db : Db)
    → is_enabled_at i (purge before settings now db).1 ≡ true
    → is_enabled_at i db ≡ true
unfolding purge deletes delete_jobs delete_where
purge-is_enabled_at i before settings now db e = exists_of_select _ _ db.teams_installations e
