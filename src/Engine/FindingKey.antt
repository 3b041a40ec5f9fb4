-- ===== src/Engine/FindingKey.antt =====
-- `finding_key` of src/sprinter/engine.py: the identity of a finding.
pub mod Stability
use sprinter_oss.Prelude.{
  String, Bool, true, false, Option, none, some, List, [], ◌∷◌, ◌==◌, string_eq, if◌then◌else◌,
}
use sprinter_oss.Json.{
  Value, Elements, Fields, null, bool, num, str, list, dict, no_items, element, no_fields, field,
  get, dumps,
}
use sprinter_oss.Models.{Job}
use sprinter_oss.Completion.{EvidenceItem}

abbrev pub stable_fields : List String
stable_fields =
    "detection_id" ∷ "rule_id" ∷ "rule" ∷ "query_id" ∷ "indicator" ∷ "indicator_value" ∷ "entity"
    ∷ "host" ∷ "device" ∷ "user" ∷ "account" ∷ "file_hash" ∷ []

-- `value in (None, "")`.
unfoldable pub is_blank : Value → Bool
is_blank null = true
is_blank (str s) = s == ""
is_blank (bool b) = false
is_blank (num z t) = false
is_blank (list xs) = false
is_blank (dict fs) = false

-- The fields of a payload under the given keys, the blank ones left out.
unfoldable pub identity : List String → Fields → Fields
unfolding get is_blank
identity [] payload = no_fields
identity (key ∷ keys) payload =
    let rest : Fields = identity keys payload in
    elim (get key payload) [ none ↦ rest | some v ↦ if is_blank v then rest else field key v rest ]

-- `payload`: what is no dict has no fields.
unfoldable pub payload_fields : Value → Fields
payload_fields (dict fs) = fs
payload_fields null = no_fields
payload_fields (bool b) = no_fields
payload_fields (num z t) = no_fields
payload_fields (str s) = no_fields
payload_fields (list xs) = no_fields

-- `identity or {"title": ..., "kind": ...}`.
unfoldable pub identity_or : EvidenceItem → Fields → Fields
identity_or item no_fields = field "title" (str item.title) (field "kind" (str item.kind) no_fields)
identity_or item (field k v fs) = field k v fs

unfoldable pub item_identity : EvidenceItem → Fields
unfolding identity payload_fields identity_or
item_identity item = identity_or item (identity stable_fields (payload_fields item.payload))

unfoldable pub identities : List EvidenceItem → Elements
unfolding item_identity
identities [] = no_items
identities (item ∷ rest) = element (dict (item_identity item)) (identities rest)

-- `material`.
unfoldable pub material : Job → List EvidenceItem → Value
unfolding identities
material job evidence = dict (
    field "selector_type" (str job.selector_type)
      (field "source" (str job.source) (field "identities" (list (identities evidence)) no_fields)))

-- `finding_key`; `sha256` is the digest of the text of a value.
unfoldable pub finding_key : (Value → String) → Job → List EvidenceItem → String
unfolding material
finding_key sha256 job evidence = sha256 (dumps (material job evidence))
