-- ===== src/Engine/Evidence.antt =====
-- `fetch_evidence`, `_splunk_literal`, `_normalise_evidence` and the payload of `review_prompt` of
-- src/sprinter/engine.py.
pub mod Literals
pub mod Numbering
use sprinter_oss.Prelude.{
  not, ℕ, suc, String, Bool, true, false, Option, none, some, List, [], ◌∷◌, map, take, clip,
  replace, decimal, ◌==◌, string_eq, if◌then◌else◌,
}
use Prim.Native.String.{◌++◌ as ◌⧺◌}
use sprinter_oss.Json.{
  Value, Elements, Fields, null, bool, num, str, list, dict, no_items, element, no_fields, field,
  items, get, get_truthy,
}
use sprinter_oss.Errors.{
  Result, ok, err, ◌>>=◌, runtime_error, key_error, type_error, attribute_error,
}
use sprinter_oss.Config.{Settings}
use sprinter_oss.Models.{Job}
use sprinter_oss.Completion.{EvidenceItem}
use sprinter_oss.Dynamic.{show, subscript, as_dict, text_of}
use sprinter_oss.Engine.{Services, SplunkResult, redact_for}

-- `_splunk_literal`, of a text.
unfoldable pub escaped : String → String
unfolding replace
escaped text = replace "\"" "\\\"" (replace "\\" "\\\\" text)

unfoldable pub splunk_literal : String → String
unfolding escaped
splunk_literal text = clip 512 (escaped text)

-- `raw if isinstance(raw, dict) else {"payload": {"value": raw}}`.
unfoldable pub wrapped : Value → Fields
wrapped (dict fs) = fs
wrapped null = field "payload" (dict (field "value" null no_fields)) no_fields
wrapped (bool b) = field "payload" (dict (field "value" (bool b) no_fields)) no_fields
wrapped (num z t) = field "payload" (dict (field "value" (num z t) no_fields)) no_fields
wrapped (str s) = field "payload" (dict (field "value" (str s) no_fields)) no_fields
wrapped (list xs) = field "payload" (dict (field "value" (list xs) no_fields)) no_fields

-- The item at an index of the list.
unfoldable pub normalised : Services → Settings → ℕ → Fields → EvidenceItem
unfolding get text_of
normalised s settings index item = record {
  external_id = "e" ⧺ decimal (suc index);
  kind = clip 32 (text_of s.repr "kind" "event" item);
  title = clip 256 (text_of s.repr "title" ("Evidence " ⧺ decimal (suc index)) item);
  uri = text_of s.repr "uri" "" item;
  payload = redact_for s settings (elim (get "payload" item) [ some v ↦ v | none ↦ dict item ]);
}

-- The loop of `_normalise_evidence`, from an index on.
unfoldable pub normalise_from : Services → Settings → ℕ → List Value → List EvidenceItem
unfolding normalised wrapped
normalise_from s settings index [] = []
normalise_from s settings index (raw ∷ rest) =
    normalised s settings index (wrapped raw) ∷ normalise_from s settings (suc index) rest

-- `_normalise_evidence`.
unfoldable pub normalise_evidence : Services → Settings → List Value → List EvidenceItem
unfolding normalise_from
normalise_evidence s settings raw = normalise_from s settings 0 raw

-- The clause of the workflow, if the selector has one.
unfoldable pub workflow_clause : (Value → String) → Fields → String
unfolding get_truthy show splunk_literal
workflow_clause repr selector = elim (get_truthy "workflow" selector) [
  | none ↦ ""
  | some v ↦ " workflow=\"" ⧺ (splunk_literal (show repr v) ⧺ "\"")
]

-- The query and the earliest time that `fetch_evidence` gives to Splunk.
unfoldable pub search_of : Services → Settings → Job → Result (String × Value)
unfolding subscript as_dict splunk_literal workflow_clause show get
search_of s settings job =
    let index : String = "index=\"" ⧺ (settings.splunk_results_index ⧺ "\"") in
    if job.selector_type == "run"
    then (do
      run_id ← subscript "run_id" job.selector_json
      selector ← as_dict job.selector_json
      ok (
        index
            ⧺ (" run_id=\""
                ⧺ (splunk_literal (show s.repr run_id) ⧺ ("\"" ⧺ workflow_clause s.repr selector))),
        str "-7d",
      ))
    else if job.selector_type == "result"
    then (do
      result_id ← subscript "result_id" job.selector_json
      ok (index ⧺ (" result_id=\"" ⧺ (splunk_literal (show s.repr result_id) ⧺ "\"")), str "-30d"))
    else (do
      selector ← as_dict job.selector_json
      ok (index, elim (get "earliest" selector) [ some v ↦ v | none ↦ str "-24h" ]))

-- `row.get("detection_name") or row.get("rule") or row.get("result_id") or "Detection event"`.
unfoldable pub row_title : (Value → String) → Fields → String
unfolding text_of
row_title repr row =
    text_of repr "detection_name"
      (text_of repr "rule" (text_of repr "result_id" "Detection event" row) row) row

-- The item that a row of Splunk becomes.
unfoldable pub row_item : Services → String → Fields → Value
unfolding row_title
row_item s url row = dict (
    field "kind" (str "splunk") (
      field "title" (str (row_title s.repr row))
        (field "uri" (str url) (field "payload" (dict row) no_fields))))

-- The evidence that the summary supplies.
unfoldable pub supplied : Services → Settings → Job → Option Value → Result (List EvidenceItem)
unfolding normalise_evidence items
supplied s settings job (some (list xs)) =
    ok (normalise_evidence s settings (take job.row_limit (items xs)))
supplied s settings job (some null) =
    err (runtime_error "Splunk is not configured and no evidence was supplied")
supplied s settings job (some (bool b)) =
    err (runtime_error "Splunk is not configured and no evidence was supplied")
supplied s settings job (some (num z t)) =
    err (runtime_error "Splunk is not configured and no evidence was supplied")
supplied s settings job (some (str t)) =
    err (runtime_error "Splunk is not configured and no evidence was supplied")
supplied s settings job (some (dict fs)) =
    err (runtime_error "Splunk is not configured and no evidence was supplied")
supplied s settings job none =
    err (runtime_error "Splunk is not configured and no evidence was supplied")

-- `fetch_evidence`.
unfoldable pub fetch_evidence : Services → Settings → Job → Result (List EvidenceItem)
unfolding supplied search_of row_item get as_dict normalise_evidence show
fetch_evidence s settings job =
    if not (settings.splunk_base_url == "")
    then (do
      query ← search_of s settings job
      found ← s.search query.0 (show s.repr query.1) job.row_limit
      ok (normalise_evidence s settings (map (row_item s found.url) found.rows)))
    else (do summary ← as_dict job.summary_json; supplied s settings job (get "evidence" summary))

-- The evidence of the prompt.
unfoldable pub prompt_items : List EvidenceItem → Elements
prompt_items [] = no_items
prompt_items (item ∷ rest) =
    element
      (dict (
        field "id" (str item.external_id) (
          field "kind" (str item.kind)
            (field "title" (str item.title) (field "payload" item.payload no_fields)))))
      (prompt_items rest)

-- `prompt_payload` of `review_prompt`: what the prompt says of the job, the rest of the text being
-- the same for every job.
unfoldable pub prompt_payload : Job → List EvidenceItem → Value
unfolding prompt_items
prompt_payload job evidence = dict (
    field "selector" job.selector_json (
      field "source" (str job.source) (
        field "run_summary" job.summary_json
          (field "evidence" (list (prompt_items evidence)) no_fields))))
