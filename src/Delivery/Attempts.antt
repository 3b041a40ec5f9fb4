-- ===== src/Delivery/Attempts.antt =====
-- The attempts of a delivery, of src/sprinter/db.py.
use sprinter_oss.Prelude.{
  ℕ, zero, suc, ◌+◌, ◌^◌, ◌≤◌, ◌<◌, ◌≡◌, refl, String, true, false, none, some, string_eq, arith,
  leb, min, if◌then◌else◌, Bool-cases, inl, inr, leb→le, holds_below, holds_below_lem,
}
use sprinter_oss.Models.{Draws, Outbox, Db}
use sprinter_oss.Models.Table.{find}
use sprinter_oss.Delivery.{backoff, is_open, item_id, delivery_failed}

-- One failed attempt: the worker holds the row as it is stored.
unfoldable pub fail_once : String → String → Draws → Db → Db
fail_once i error d db = elim (find (item_id i) db.delivery_outbox) [
  | none ↦ db
  | some item ↦ delivery_failed item error d db
]

-- n failed attempts in a row; the k-th has the error and the draws of k.
unfoldable pub fail_times : String → (ℕ → String) → (ℕ → Draws) → ℕ → Db → Db
unfolding fail_once
fail_times i error d zero db = db
fail_times i error d (suc n) db = fail_once i (error n) (d n) (fail_times i error d n db)

-- The row of an item after failed attempts: one more attempt each, with the limit as it was, and open
-- as long as the limit is not reached.
record HasFailed (n : ℕ) (item row : Outbox) : Type 0 where
  attempts : row.attempts ≡ item.attempts + n
  max_attempts : row.max_attempts ≡ item.max_attempts
  open_below :
      is_open row.status ≡ (if leb item.max_attempts (item.attempts + n) then false else true)

powers_table : holds_below 10 (λ n. leb (2 ^ n) 3600) ≡ true
unfolding holds_below
powers_table = refl

powers : (n : ℕ) → n < 10 → 2 ^ n ≤ 3600
powers n h = leb→le (2 ^ n) 3600 (holds_below_lem 10 (λ k. leb (2 ^ k) 3600) n powers_table h)

-- The waiting time doubles with each attempt, from 2 seconds up to 1024, where it stays: the limit of
-- 3600 seconds is never reached.
pub backoff_lem : (n : ℕ) → backoff n ≡ (if leb 10 n then 1024 else 2 ^ n)
unfolding backoff
backoff_lem n = elim (Bool-cases (leb 10 n)) [
  | inl e ↦ let top : min n 10 ≡ 10 = omega (arith, leb→le 10 n e) in rw (e, top)
  | inr e ↦
      let low : min n 10 ≡ n = ground arith in
      let small : 2 ^ n ≤ 3600 = powers n (ground arith) in rw (e, low) (omega arith)
]
