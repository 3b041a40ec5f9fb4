-- ===== src/Engine/Evidence/Numbering.antt =====
-- The evidence that `_normalise_evidence` of src/sprinter/engine.py makes.
use sprinter_oss.Prelude.{ℕ, suc, ◌≤◌, ◌≡◌, refl, ap, List, [], ◌∷◌, All, length, chars, chars-clip}
use sprinter_oss.Json.{Value}
use sprinter_oss.Config.{Settings, redaction_keys}
use sprinter_oss.Redaction.{is_secret, IsRedacted}
use sprinter_oss.Redaction.Laws.{redact-IsRedacted}
use sprinter_oss.Completion.{EvidenceItem}
use sprinter_oss.Engine.{Services, redact_for}
use sprinter_oss.Engine.Evidence.{normalise_from, normalise_evidence, normalised}

-- What the columns of the database hold, and what may be shown to the model.
abbrev pub IsPresentable : Services → Settings → EvidenceItem → Type 0
IsPresentable s settings item =
    (chars item.kind ≤ 32)
    × (chars item.title ≤ 256)
    × IsRedacted (is_secret s.lower (redaction_keys s.lower settings)) item.payload

normalise_from-IsPresentable :
    (s : Services) (settings : Settings) (k : ℕ) (raw : List Value)
    → All (IsPresentable s settings) (normalise_from s settings k raw)
      × (length (normalise_from s settings k raw) ≡ length raw)
unfolding normalise_from normalised redact_for
normalise_from-IsPresentable s settings k [] = (tt, refl)
normalise_from-IsPresentable s settings k (v ∷ rest) =
    let (items, same) = normalise_from-IsPresentable s settings (suc k) rest in
    (((chars-clip 32 _, chars-clip 256 _, redact-IsRedacted _ _), items), ap suc same)

-- There is one item of evidence for each value given, its kind has at most 32 characters and its
-- title at most 256, and in its payload every secret key, at any depth, has the mark as its value.
pub normalise_evidence-IsPresentable :
    (s : Services) (settings : Settings) (raw : List Value)
    → All (IsPresentable s settings) (normalise_evidence s settings raw)
      × (length (normalise_evidence s settings raw) ≡ length raw)
unfolding normalise_evidence
normalise_evidence-IsPresentable s settings raw = normalise_from-IsPresentable s settings 0 raw
