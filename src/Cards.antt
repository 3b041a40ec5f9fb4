-- ===== src/Cards.antt =====
-- src/sprinter/teams/cards.py: the Adaptive Card of a review.
--
-- The Unicode tables are not in the repository: `str.lower` and `str.title` are the arguments
-- `lower` and `title_case`. `repr` is Python's text of a list or a dict.
use sprinter_oss.Prelude.{
  String, Option, none, some, List, [], ◌∷◌, ◌==◌, string_eq, if◌then◌else◌, clip, replace, true,
}
use Prim.Native.String.{◌++◌ as ◌⧺◌}
use sprinter_oss.Json.{
  Value, Elements, Fields, null, bool, num, str, list, dict, no_items, element, no_fields, field,
  get, get_truthy, number,
}
use sprinter_oss.Dynamic.{show}
use sprinter_oss.Completion.{ReviewDecision, or_default}

-- A dict literal of texts.
abbrev pub texts : List (String × String) → Fields
texts [] = no_fields
texts ((k, v) ∷ rest) = field k (str v) (texts rest)

unfoldable pub append_items : Elements → Elements → Elements
append_items no_items ys = ys
append_items (element v xs) ys = element v (append_items xs ys)

-- `value if value not in (None, "") else "Not provided"`, as text; `none` is a missing key.
unfoldable pub fact_text : (Value → String) → Option Value → String
unfolding show
fact_text repr none = "Not provided"
fact_text repr (some null) = "Not provided"
fact_text repr (some (str s)) = if s == "" then "Not provided" else s
fact_text repr (some (bool b)) = show repr (bool b)
fact_text repr (some (num z t)) = t
fact_text repr (some (list xs)) = repr (list xs)
fact_text repr (some (dict fs)) = repr (dict fs)

-- `_fact`.
unfoldable pub fact : (Value → String) → String → Option Value → Value
unfolding fact_text
fact repr name value = dict (texts (("title", name) ∷ ("value", fact_text repr value) ∷ []))

-- `"\n".join(f"- {item}" for item in items)`.
unfoldable pub bullets : List String → String
bullets [] = ""
bullets (s ∷ []) = "- " ⧺ s
bullets (s ∷ t ∷ rest) = ("- " ⧺ s) ⧺ ("\n" ⧺ bullets (t ∷ rest))

unfoldable pub accent_of : String → String
accent_of severity =
    if severity == "critical"
    then "attention"
    else if severity == "high"
    then "attention"
    else if severity == "medium"
    then "warning"
    else if severity == "low"
    then "accent"
    else "default"

-- `run_details.get("run_id") or run_details.get("result_id") or "Latest"`.
unfoldable pub run_name : Fields → Value
unfolding get_truthy
run_name details = elim (get_truthy "run_id" details) [
  | some v ↦ v
  | none ↦ elim (get_truthy "result_id" details) [ some v ↦ v | none ↦ str "Latest" ]
]

unfoldable pub facts : (Value → String) → Fields → Elements
unfolding fact run_name get
facts repr details = element (fact repr "Run" (some (run_name details))) (
    element (fact repr "Source" (get "source" details)) (
      element
        (fact repr "Evidence"
          (elim (get "evidence_count" details) [ none ↦ some (number 0) | some v ↦ some v ]))
        (element (fact repr "Model" (get "model" details)) no_items)))

-- The block of the rationale, if there is one.
unfoldable pub rationale_block : List String → Elements
unfolding bullets
rationale_block [] = no_items
rationale_block (s ∷ rest) =
    element
      (dict (
        field "type" (str "TextBlock") (
          field "text" (str (bullets (s ∷ rest)))
            (field "wrap" (bool true) (field "spacing" (str "Medium") no_fields)))))
      no_items

-- The two blocks of the recommended actions, if there are any.
unfoldable pub actions_block : List String → Elements
unfolding bullets
actions_block [] = no_items
actions_block (s ∷ rest) =
    element
      (dict (
        texts (
          ("type", "TextBlock")
          ∷ ("text", "Recommended actions")
          ∷ ("weight", "Bolder")
          ∷ ("spacing", "Medium")
          ∷ [])))
      (element
        (dict (
          field "type" (str "TextBlock") (
            field "text" (str (bullets (s ∷ rest)))
              (field "wrap" (bool true) (field "spacing" (str "Small") no_fields)))))
        no_items)

-- `details_body`.
unfoldable pub details_body : (Value → String) → ReviewDecision → Fields → Elements
unfolding facts rationale_block actions_block append_items
details_body repr decision details =
    element
      (dict (
        field "type" (str "FactSet")
          (field "facts" (list (facts repr details)) (field "spacing" (str "Small") no_fields))))
      (append_items (rationale_block decision.rationale)
        (actions_block decision.recommended_actions))

-- A dict of `evidence_links`.
pub record Link : Type 0 where
  pub label : String
  pub url : String

unfoldable pub open_url : Link → Value
unfolding or_default
open_url link = dict (
    texts (
      ("type", "Action.OpenUrl")
      ∷ ("title", clip 80 (or_default link.label "Open evidence"))
      ∷ ("url", link.url)
      ∷ []))

-- The loop over the links: a link without an address has no button.
unfoldable pub link_actions : List Link → Elements
unfolding open_url
link_actions [] = no_items
link_actions (link ∷ rest) =
    let more : Elements = link_actions rest in
    if link.url == "" then more else element (open_url link) more

-- `card_actions`: the button of the details, and then those of the links.
unfoldable pub card_actions : (Value → String) → ReviewDecision → Fields → List Link → Elements
unfolding details_body link_actions
card_actions repr decision details links =
    element
      (dict (
        field "type" (str "Action.ShowCard") (
          field "title" (str "Run details") (
            field "card"
              (dict (
                field "type" (str "AdaptiveCard") (
                  field "version" (str "1.5")
                    (field "body" (list (details_body repr decision details)) no_fields))))
              no_fields))))
      (link_actions links)

-- `build_review_card`, for the dict of a `ModelDecision`.
unfoldable pub build_review_card :
    (Value → String)
    → (String → String)
    → (String → String)
    → ReviewDecision
    → Fields
    → List Link
    → Value
unfolding accent_of fact card_actions or_default
build_review_card repr lower title_case decision details links =
    let severity : String = lower (or_default decision.severity "informational") in
    let verdict : String = or_default decision.verdict "needs investigation" in
    dict (
      field "$schema" (str "http://adaptivecards.io/schemas/adaptive-card.json") (
        field "type" (str "AdaptiveCard") (
          field "version" (str "1.5") (
            field "msteams" (dict (texts (("width", "Full") ∷ []))) (
              field "body"
                (list (
                  element
                    (dict (
                      field "type" (str "TextBlock") (
                        field "text" (str "Sprinter review") (
                          field "size" (str "Medium") (
                            field "weight" (str "Bolder") (
                              field "color" (str (accent_of severity))
                                (field "wrap" (bool true) no_fields)))))))
                    (element
                      (dict (
                        field "type" (str "TextBlock") (
                          field "text" (str (or_default decision.summary "Review completed."))
                            (field "wrap" (bool true) (field "spacing" (str "Small") no_fields)))))
                      (element
                        (dict (
                          field "type" (str "FactSet") (
                            field "facts"
                              (list (
                                element
                                  (fact repr "Verdict"
                                    (some (str (title_case (replace "_" " " verdict)))))
                                  (element (fact repr "Severity" (some (str (title_case severity))))
                                    no_items)))
                              (field "spacing" (str "Medium") no_fields))))
                        no_items))))
                (field "actions" (list (card_actions repr decision details links)) no_fields))))))
