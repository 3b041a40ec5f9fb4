-- ===== src/Health.antt =====
-- `heartbeat` and `readiness` of src/sprinter/db.py, and the answer of `/readyz` in
-- src/sprinter/api.py.
--
-- A datetime of Python knows its time zone or not, and the two kinds cannot be compared: the
-- comparison raises TypeError. What the database driver gives back for a stored instant is not in
-- the repository: it is the argument `load`.
pub mod Ready
use sprinter_oss.Prelude.{
  ℕ, ◌+◌, ◌-◌, String, Bool, true, false, not, ◌&&◌, ◌||◌, Option, none, some, ltb, leb, clip,
  if◌then◌else◌,
}
use sprinter_oss.Json.{Value, dumps}
use sprinter_oss.Errors.{Result, ok, err, ◌>>=◌, type_error}
use sprinter_oss.Config.{Settings}
use sprinter_oss.Models.{Draws, Db, WorkerHealth, seconds}
use sprinter_oss.Models.Table.{count_where}

-- `heartbeat`: the one row of the worker, written whole. A new row takes one more reading, which the
-- next one overwrites.
unfoldable pub heartbeat : Bool → String → Value → Draws → Db → Db
heartbeat pi_ready pi_error details d db =
    let k : ℕ = elim db.worker_health [ none ↦ 1 | some h ↦ 0 ] in
    record db {
      worker_health = some (record {
        heartbeat_at = d.clock k;
        pi_ready = pi_ready;
        pi_checked_at = some (d.clock (k + 1));
        pi_error = clip 4000 pi_error;
        details_json = dumps details;
      });
    }

pub data Datetime : Type 0 where
  naive aware : ℕ → Datetime

-- `a >= b`.
unfoldable pub not_before : Datetime → Datetime → Result Bool
not_before (naive a) (naive b) = ok (leb b a)
not_before (naive a) (aware b) = err type_error
not_before (aware a) (naive b) = err type_error
not_before (aware a) (aware b) = ok (leb b a)

-- The dict that `readiness` returns.
pub record Checks : Type 0 where
  pub database : Bool
  pub worker_heartbeat : Option Datetime
  pub worker_fresh : Bool
  pub pi_ready : Bool
  pub pi_error : String
  pub enabled_teams_destinations : ℕ

unfoldable pub enabled_destinations : Db → ℕ
enabled_destinations db = count_where (λ row. row.enabled && row.active) db.teams_installations

-- `worker_fresh`, for a worker that has reported.
unfoldable pub is_fresh : (ℕ → Datetime) → Settings → ℕ → WorkerHealth → Result Bool
unfolding not_before
is_fresh load settings now h =
    not_before (load h.heartbeat_at) (aware (now - seconds settings.worker_stale_seconds))

-- `readiness`; `now` is the reading of the clock.
unfoldable pub readiness : (ℕ → Datetime) → Settings → ℕ → Db → Result Checks
unfolding is_fresh enabled_destinations
readiness load settings now db = elim db.worker_health [
  | none ↦ ok (record {
    database = true;
    worker_heartbeat = none;
    worker_fresh = false;
    pi_ready = false;
    pi_error = "worker has not reported";
    enabled_teams_destinations = enabled_destinations db;
  })
  | some h ↦ do
    fresh ← is_fresh load settings now h
    ok (record {
      database = true;
      worker_heartbeat = some (load h.heartbeat_at);
      worker_fresh = fresh;
      pi_ready = h.pi_ready;
      pi_error = h.pi_error;
      enabled_teams_destinations = enabled_destinations db;
    })
]

-- `teams_ready` and `ok` of the handler of `/readyz`.
unfoldable pub teams_ready : Settings → Checks → Bool
teams_ready settings checks = not settings.teams_enabled || ltb 0 checks.enabled_teams_destinations

unfoldable pub is_ready : Settings → Checks → Bool
unfolding teams_ready
is_ready settings checks =
    checks.database && (checks.worker_fresh && (checks.pi_ready && teams_ready settings checks))

-- The status of the answer. TypeError has no handler of its own, so the server answers 500.
unfoldable pub readyz : (ℕ → Datetime) → Settings → ℕ → Db → ℕ
unfolding readiness is_ready
readyz load settings now db = elim (readiness load settings now db) [
  | ok checks ↦ if is_ready settings checks then 200 else 503
  | err e ↦ 500
]
