-- ===== src/Redaction.antt =====
-- `redact` of src/sprinter/engine.py. The lower-case letters of Unicode are not in the repository:
-- `str.lower` is the argument `lower`.
pub mod Laws
use sprinter_oss.Prelude.{
  ℕ, String, ◌≡◌, refl, sym, ◌∙◌, ap, Bool, true, false, List, ◌==◌, string_eq, if◌then◌else◌,
  Bool-cases, inl, inr, arith,
}
use text.Mathlib.Text.{is_le}
use Prim.Native.String.{compare}
use sprinter_oss.Json.{
  Value, Elements, Fields, null, bool, num, str, list, dict, no_items, element, no_fields, field,
  insert_sorted, sort_keys, sort_items, sort_fields, dumps,
}
use sprinter_oss.Models.Table.{exists}

-- `str(key).lower() in keys`.
unfoldable pub is_secret : (String → String) → List String → String → Bool
is_secret lower keys key = exists (λ k. k == lower key) keys

abbrev pub redacted : Value
redacted = str "[REDACTED]"

unfoldable mutual
  -- `redact(value, keys)`, with the test of a key as its first argument.
  pub redact : (String → Bool) → Value → Value
  redact secret null = null
  redact secret (bool b) = bool b
  redact secret (num z t) = num z t
  redact secret (str s) = str s
  redact secret (list xs) = list (redact_items secret xs)
  redact secret (dict fs) = dict (redact_fields secret fs)

  pub redact_items : (String → Bool) → Elements → Elements
  redact_items secret no_items = no_items
  redact_items secret (element v xs) = element (redact secret v) (redact_items secret xs)

  pub redact_fields : (String → Bool) → Fields → Fields
  redact_fields secret no_fields = no_fields
  redact_fields secret (field k v fs) =
      field k (if secret k then redacted else redact secret v) (redact_fields secret fs)

-- At every depth, the value of a secret key is the mark.
abbrev mutual
  pub IsRedacted : (String → Bool) → Value → Type 0
  IsRedacted secret null = Unit
  IsRedacted secret (bool b) = Unit
  IsRedacted secret (num z t) = Unit
  IsRedacted secret (str s) = Unit
  IsRedacted secret (list xs) = AreRedacted secret xs
  IsRedacted secret (dict fs) = HasRedacted secret fs

  pub AreRedacted : (String → Bool) → Elements → Type 0
  AreRedacted secret no_items = Unit
  AreRedacted secret (element v xs) = IsRedacted secret v × AreRedacted secret xs

  pub HasRedacted : (String → Bool) → Fields → Type 0
  HasRedacted secret no_fields = Unit
  HasRedacted secret (field k v fs) =
      (secret k ≡ true → v ≡ redacted) × IsRedacted secret v × HasRedacted secret fs
