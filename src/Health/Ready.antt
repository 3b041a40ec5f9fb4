-- ===== src/Health/Ready.antt =====
-- What `/readyz` of src/sprinter/api.py answers.
use sprinter_oss.Prelude.{ℕ, ◌≤◌, ◌-◌, ◌≡◌, Bool, true, ◌&&◌, not, ◌||◌}
use sprinter_oss.Config.{Settings}
use sprinter_oss.Models.{Db, WorkerHealth, seconds}
use sprinter_oss.Models.Table.{exists}
use sprinter_oss.Health.{Datetime, aware}

-- Is some destination active and enabled?
abbrev pub serves_teams : Db → Bool
serves_teams db = exists (λ row. row.enabled && row.active) db.teams_installations

-- The stored heartbeat is read with a time zone and is not older than the settings allow, Pi is ready,
-- and with Teams some destination is active and enabled.
abbrev pub IsServing : (ℕ → Datetime) → Settings → ℕ → Db → WorkerHealth → Type 0
IsServing load settings now db h =
    (t : ℕ) × (load h.heartbeat_at ≡ aware t)
    × (now - seconds settings.worker_stale_seconds ≤ t)
    × (h.pi_ready ≡ true)
    × (not settings.teams_enabled || serves_teams db ≡ true)
