-- ===== src/Pi/Failures.antt =====
-- How the calls of src/sprinter/pi_gateway.py fail, and whether the worker survives it.
use sprinter_oss.Prelude.{◌≡◌, ◌⊎◌, String, true, string_eq}
use sprinter_oss.Errors.{Exception, Result, err, attribute_error, os_error}
use sprinter_oss.Engine.Process.{is_caught}

-- An exception that the worker catches, or the AttributeError of a message that is no object, or the
-- OSError of a prompt that is not read.
abbrev pub IsExpected : Exception → Type 0
IsExpected e =
    (is_caught e ≡ true) ⊎ ((e ≡ attribute_error) ⊎ ((text : String) × (e ≡ os_error text)))

-- A result that fails, if it does, as expected.
abbrev FailsWell : {A : Type 0} → Result A → Type 0
FailsWell r = (e : Exception) → r ≡ err e → IsExpected e
