-- ===== src/Engine/FindingKey/Stability.antt =====
-- What the key of a finding depends on, in src/sprinter/engine.py.
use sprinter_oss.Prelude.{◌≡◌, ◌∙◌, refl, ap, String, List, [], ◌∷◌, All, arith}
use sprinter_oss.Json.{Value, Fields, no_fields, field, get, dumps}
use sprinter_oss.Models.{Job}
use sprinter_oss.Completion.{EvidenceItem}
use sprinter_oss.Engine.FindingKey.{
  stable_fields, identity, payload_fields, identity_or, item_identity, identities, material,
  finding_key,
}

-- Two payloads that have the same values under some keys.
abbrev pub Agree : List String → Fields → Fields → Type 0
Agree keys p q = All (λ key. get key p ≡ get key q) keys

identity-Agree :
    (keys : List String) (p q : Fields) → Agree keys p q → identity keys p ≡ identity keys q
unfolding identity
identity-Agree [] p q a = refl
identity-Agree (key ∷ keys) p q a = ground (arith, a.0, identity-Agree keys p q a.1)

-- Two items of evidence of one kind and title whose payloads agree on the stable fields.
abbrev pub SameItem : EvidenceItem → EvidenceItem → Type 0
SameItem x y =
    (x.kind ≡ y.kind)
    × (x.title ≡ y.title)
    × Agree stable_fields (payload_fields x.payload) (payload_fields y.payload)

abbrev pub SameItems : List EvidenceItem → List EvidenceItem → Type 0
SameItems [] [] = Unit
SameItems [] (y ∷ ys) = ⊥
SameItems (x ∷ xs) [] = ⊥
SameItems (x ∷ xs) (y ∷ ys) = SameItem x y × SameItems xs ys

identity_or-SameItem :
    (x y : EvidenceItem) (fs : Fields)
    → x.kind ≡ y.kind
    → x.title ≡ y.title
    → identity_or x fs ≡ identity_or y fs
unfolding identity_or
identity_or-SameItem x y no_fields k t = rw (k, t) refl
identity_or-SameItem x y (field j v fs) k t = refl

item_identity-SameItem : (x y : EvidenceItem) → SameItem x y → item_identity x ≡ item_identity y
unfolding item_identity
item_identity-SameItem x y h =
    ap (identity_or x)
      (identity-Agree stable_fields (payload_fields x.payload) (payload_fields y.payload) h.2)
    ∙ identity_or-SameItem x y _ h.0 h.1

identities-SameItems : (xs ys : List EvidenceItem) → SameItems xs ys → identities xs ≡ identities ys
unfolding identities
identities-SameItems [] [] h = refl
identities-SameItems [] (y ∷ ys) h = absurd h
identities-SameItems (x ∷ xs) [] h = absurd h
identities-SameItems (x ∷ xs) (y ∷ ys) h =
    rw (item_identity-SameItem x y h.0, identities-SameItems xs ys h.1) refl

-- Two jobs of one selector type and source have the same finding key, if their evidence agrees item
-- by item on kind, title and the stable fields of the payload: identifiers of the run, timestamps and
-- other fields do not matter.
pub finding_key-SameItems :
    (sha256 : Value → String) (job job' : Job) (xs ys : List EvidenceItem)
    → job.selector_type ≡ job'.selector_type
    → job.source ≡ job'.source
    → SameItems xs ys
    → finding_key sha256 job xs ≡ finding_key sha256 job' ys
unfolding finding_key material
finding_key-SameItems sha256 job job' xs ys t s h =
    ap (λ m. sha256 (dumps m)) (rw (t, s, identities-SameItems xs ys h) refl)
