-- ===== src/Engine/Buttons.antt =====
-- The buttons that a card of src/sprinter/teams/cards.py has for the evidence.
use text.Mathlib.TextLemmas.{nil≢cons}
use sprinter_oss.Prelude.{
  ◌≡◌, refl, ap, sym, String, Bool, true, false, List, [], ◌∷◌, map, arith, ◌==◌, string_eq, eq_iff,
  has_prefix, Bool-cases, inl, inr,
}
use sprinter_oss.Json.{Value, items}
use sprinter_oss.Models.Table.{select}
use sprinter_oss.Completion.{EvidenceItem}
use sprinter_oss.Cards.{open_url, link_actions}
use sprinter_oss.Engine.{links}

abbrev pub is_secure : EvidenceItem → Bool
is_secure item = has_prefix "https://" item.uri

abbrev pub button : EvidenceItem → Value
button item = open_url (record { label = item.title; url = item.uri })

has_prefix-nonempty : (u : String) → has_prefix "https://" u ≡ true → (u == "") ≡ false
unfolding has_prefix
has_prefix-nonempty String.[] h = absurd (ground arith)
has_prefix-nonempty (String.◌∷◌ c u) h = elim (Bool-cases (String.◌∷◌ c u == "")) [
  | inl e ↦ absurd (nil≢cons (sym ((eq_iff (String.◌∷◌ c u) "").0 e)))
  | inr e ↦ e
]

-- The buttons for the evidence are those of the items whose address begins with https://, in their
-- order, each with the item's own title and address.
pub link_actions-links :
    (evidence : List EvidenceItem)
    → items (link_actions (links evidence)) ≡ map button (select is_secure evidence)
unfolding items link_actions links select
link_actions-links [] = refl
link_actions-links (item ∷ rest) = elim (Bool-cases (is_secure item)) [
  | inl e ↦
      rw (e, has_prefix-nonempty item.uri e) (ap (λ xs. button item ∷ xs) (link_actions-links rest))
  | inr e ↦ rw e (link_actions-links rest)
]
