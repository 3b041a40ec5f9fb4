-- ===== src/Errors.antt =====
-- The exceptions that the modelled code raises, and results that may be one.
use sprinter_oss.Prelude.{arith, String, ◌≡◌, ◌⊎◌, inl, inr, refl}

pub data Exception : Type 0 where
  idempotency_conflict integrity_error : Exception
  value_error runtime_error : String → Exception
  pi_error pi_unavailable pi_protocol_error : String → Exception
  teams_authentication_error : String → Exception
  key_error : String → Exception
  type_error attribute_error : Exception
  -- An exception of the file system.
  os_error : String → Exception
  -- An exception of httpx.
  http_error : String → Exception

pub data Result {ℓ} (A : Type ℓ) : Type ℓ where
  ok : A → Result A
  err : Exception → Result A

infixl 5 ◌>>=◌
abbrev pub ◌>>=◌ {ℓ κ} : {A : Type ℓ} {B : Type κ} → Result A → (A → Result B) → Result B
ok a >>= f = f a
err e >>= f = err e

pub Result-cases {ℓ} :
    {A : Type ℓ} (r : Result A) → ((a : A) × (r ≡ ok a)) ⊎ ((e : Exception) × (r ≡ err e))
Result-cases (ok a) = inl (a, refl)
Result-cases (err e) = inr (e, refl)

-- A chain of results that succeeds does so at its first step.
pub ok-bind :
    {A B : Type 0} (r : Result A) (f : A → Result B) (b : B)
    → (r >>= f) ≡ ok b
    → (a : A) × (r ≡ ok a) × (f a ≡ ok b)
ok-bind (ok a) f b e = (a, refl, e)
ok-bind (err x) f b e = absurd (ground (arith, e))

-- A chain that raises does so at its first step or after it.
pub err-bind :
    {A B : Type 0} (r : Result A) (f : A → Result B) (e : Exception)
    → (r >>= f) ≡ err e
    → (r ≡ err e) ⊎ ((a : A) × (r ≡ ok a) × (f a ≡ err e))
err-bind (ok a) f e h = inr (a, refl, h)
err-bind (err x) f e h = inl (ground (arith, h))
