-- ===== src/Redaction/Laws.antt =====
-- Nothing under a secret key survives `redact`, and storing the result keeps it so.
use sprinter_oss.Prelude.{String, ◌≡◌, refl, Bool, true, if◌then◌else◌, Bool-cases, inl, inr, arith}
use text.Mathlib.Text.{is_le}
use Prim.Native.String.{compare}
use sprinter_oss.Json.{
  Value, Elements, Fields, null, bool, num, str, list, dict, no_items, element, no_fields, field,
  insert_sorted, sort_keys, sort_items, sort_fields, dumps,
}
use sprinter_oss.Redaction.{
  redact, redact_items, redact_fields, redacted, IsRedacted, AreRedacted, HasRedacted,
}

redacted_field :
    (secret : String → Bool) (k : String) (v : Value) (fs : Fields)
    → IsRedacted secret v
    → HasRedacted secret fs
    → HasRedacted secret (field k (if secret k then redacted else v) fs)
redacted_field secret k v fs h r = elim (Bool-cases (secret k)) [
  | inl e ↦ rw e (λ _. refl, tt, r)
  | inr e ↦ rw e (λ t. absurd (ground arith), h, r)
]

mutual
  unfolding redact

  pub redact-IsRedacted : (secret : String → Bool) (v : Value) → IsRedacted secret (redact secret v)
  redact-IsRedacted secret null = tt
  redact-IsRedacted secret (bool b) = tt
  redact-IsRedacted secret (num z t) = tt
  redact-IsRedacted secret (str s) = tt
  redact-IsRedacted secret (list xs) = redact_items-AreRedacted secret xs
  redact-IsRedacted secret (dict fs) = redact_fields-HasRedacted secret fs

  redact_items-AreRedacted :
      (secret : String → Bool) (xs : Elements) → AreRedacted secret (redact_items secret xs)
  redact_items-AreRedacted secret no_items = tt
  redact_items-AreRedacted secret (element v xs) =
      (redact-IsRedacted secret v, redact_items-AreRedacted secret xs)

  redact_fields-HasRedacted :
      (secret : String → Bool) (fs : Fields) → HasRedacted secret (redact_fields secret fs)
  redact_fields-HasRedacted secret no_fields = tt
  redact_fields-HasRedacted secret (field k v fs) =
      redacted_field secret k (redact secret v) (redact_fields secret fs)
        (redact-IsRedacted secret v) (redact_fields-HasRedacted secret fs)

insert_sorted-HasRedacted :
    (secret : String → Bool) (k : String) (v : Value) (fs : Fields)
    → (secret k ≡ true → v ≡ redacted)
    → IsRedacted secret v
    → HasRedacted secret fs
    → HasRedacted secret (insert_sorted k v fs)
unfolding insert_sorted
insert_sorted-HasRedacted secret k v no_fields m h r = (m, h, tt)
insert_sorted-HasRedacted secret k v (field j w fs) m h r =
    elim (Bool-cases (is_le (compare k j))) [
      | inl e ↦ rw e (m, h, r)
      | inr e ↦ rw e (r.0, r.1, insert_sorted-HasRedacted secret k v fs m h r.2)
    ]

-- The mark sorts to itself.
sort_keys-redacted : sort_keys redacted ≡ redacted
unfolding sort_keys
sort_keys-redacted = refl

mutual
  unfolding sort_keys

  sort_keys-IsRedacted :
      (secret : String → Bool) (v : Value) → IsRedacted secret v → IsRedacted secret (sort_keys v)
  sort_keys-IsRedacted secret null h = tt
  sort_keys-IsRedacted secret (bool b) h = tt
  sort_keys-IsRedacted secret (num z t) h = tt
  sort_keys-IsRedacted secret (str s) h = tt
  sort_keys-IsRedacted secret (list xs) h = sort_items-AreRedacted secret xs h
  sort_keys-IsRedacted secret (dict fs) h = sort_fields-HasRedacted secret fs h

  sort_items-AreRedacted :
      (secret : String → Bool) (xs : Elements)
      → AreRedacted secret xs
      → AreRedacted secret (sort_items xs)
  sort_items-AreRedacted secret no_items h = tt
  sort_items-AreRedacted secret (element v xs) h =
      (sort_keys-IsRedacted secret v h.0, sort_items-AreRedacted secret xs h.1)

  sort_fields-HasRedacted :
      (secret : String → Bool) (fs : Fields)
      → HasRedacted secret fs
      → HasRedacted secret (sort_fields fs)
  sort_fields-HasRedacted secret no_fields h = tt
  sort_fields-HasRedacted secret (field k v fs) h =
      insert_sorted-HasRedacted secret k (sort_keys v) (sort_fields fs)
        (λ e. rw (h.0 e) (sort_keys-redacted)) (sort_keys-IsRedacted secret v h.1)
        (sort_fields-HasRedacted secret fs h.2)

-- What `dumps(redact(value, keys))` stores has the mark under every secret key, at every depth.
pub dumps-redact-IsRedacted :
    (secret : String → Bool) (v : Value) → IsRedacted secret (dumps (redact secret v))
unfolding dumps
dumps-redact-IsRedacted secret v =
    sort_keys-IsRedacted secret (redact secret v) (redact-IsRedacted secret v)
