-- ===== src/Schemas/Requests.antt =====
-- The requests of src/sprinter/schemas.py, as pydantic validates them. What it takes for an int is the
-- argument `as_int`, `none` for a value that is none and for a negative one.
use Prim.Native.Char.{code}
use sprinter_oss.Prelude.{
  ℕ, String, Bool, true, false, ◌&&◌, ◌||◌, Option, none, some, ◌==◌, string_eq, leb, if◌then◌else◌,
  chars, is_char,
}
use sprinter_oss.Json.{Value, Fields, null, bool, num, str, list, dict, no_fields, get}
use sprinter_oss.Errors.{Result, ok, ◌>>=◌}
use sprinter_oss.Engine.{ReviewSelector, run, result, latest, ReviewJobRequest}
use sprinter_oss.Schemas.{text_field, invalid}

-- `Field(min_length=low, max_length=high)` of a text.
unfoldable pub is_sized : ℕ → ℕ → String → Bool
is_sized low high s = leb low (chars s) && leb (chars s) high

-- A text that may be missing.
unfoldable pub text_or : String → (String → Bool) → Option Value → Result String
unfolding text_field
text_or default p none = ok default
text_or default p (some v) = text_field p (some v)

-- `str | None`, which may be missing.
unfoldable pub optional_text : (String → Bool) → Option Value → Result (Option String)
optional_text p none = ok none
optional_text p (some null) = ok none
optional_text p (some (str s)) = if p s then ok (some s) else invalid
optional_text p (some (bool b)) = invalid
optional_text p (some (num z t)) = invalid
optional_text p (some (list xs)) = invalid
optional_text p (some (dict fs)) = invalid

-- `int`, with bounds, which may be missing.
unfoldable pub int_or : (Value → Option ℕ) → ℕ → ℕ → ℕ → Option Value → Result ℕ
int_or as_int default low high none = ok default
int_or as_int default low high (some v) = elim (as_int v) [
  | none ↦ invalid
  | some n ↦ if leb low n && leb n high then ok n else invalid
]

-- `dict[str, Any]`, which may be missing.
unfoldable pub dict_or_empty : Option Value → Result Fields
dict_or_empty none = ok no_fields
dict_or_empty (some (dict fs)) = ok fs
dict_or_empty (some null) = invalid
dict_or_empty (some (bool b)) = invalid
dict_or_empty (some (num z t)) = invalid
dict_or_empty (some (str s)) = invalid
dict_or_empty (some (list xs)) = invalid

-- `[0-9]*[smhdw]$`.
unfoldable pub is_span : String → Bool
is_span String.[] = false
is_span (String.◌∷◌ c s) =
    let rest = is_span s in
    if leb 48 (code c) && leb (code c) 57
    then rest
    else s == ""
      && (is_char "s" c || (is_char "m" c || (is_char "h" c || (is_char "d" c || is_char "w" c))))

unfoldable pub starts_span : String → Bool
unfolding is_span
starts_span String.[] = false
starts_span (String.◌∷◌ c s) = leb 49 (code c) && (leb (code c) 57 && is_span s)

-- `^-[1-9][0-9]*[smhdw]$`.
unfoldable pub is_earliest : String → Bool
unfolding starts_span
is_earliest String.[] = false
is_earliest (String.◌∷◌ c s) = is_char "-" c && starts_span s

-- A selector of a known type.
unfoldable pub selector_of : String → Fields → Result ReviewSelector
unfolding text_field text_or optional_text is_sized is_earliest get
selector_of kind fs =
    if kind == "run"
    then (do
      run_id ← text_field (is_sized 1 256) (get "run_id" fs)
      workflow ← optional_text (is_sized 0 128) (get "workflow" fs)
      ok (run run_id workflow))
    else if kind == "result"
    then (do result_id ← text_field (is_sized 1 256) (get "result_id" fs); ok (result result_id))
    else if kind == "latest"
    then (do earliest ← text_or "-24h" is_earliest (get "earliest" fs); ok (latest earliest))
    else invalid

-- `ReviewSelector`, told apart by its type.
unfoldable pub review_selector : Option Value → Result ReviewSelector
unfolding selector_of text_field get
review_selector (some (dict fs)) = do
  kind ← text_field (λ s. true) (get "type" fs)
  selector_of kind fs
review_selector none = invalid
review_selector (some null) = invalid
review_selector (some (bool b)) = invalid
review_selector (some (num z t)) = invalid
review_selector (some (str s)) = invalid
review_selector (some (list xs)) = invalid

-- `ReviewJobRequest`.
unfoldable pub review_job_request : (Value → Option ℕ) → Fields → Result ReviewJobRequest
unfolding review_selector text_or int_or dict_or_empty is_sized get
review_job_request as_int fs = do
  selector ← review_selector (get "selector" fs)
  source ← text_or "api" (is_sized 1 128) (get "source" fs)
  summary ← dict_or_empty (get "summary" fs)
  limit ← int_or as_int 20 1 100 (get "limit" fs)
  ok (record { selector = selector; source = source; summary = summary; limit = limit })

-- `SplunkSearchRequest`.
pub record SplunkSearchRequest : Type 0 where
  pub search : String
  pub earliest : String
  pub latest : String
  pub max_rows : ℕ

unfoldable pub splunk_search_request : (Value → Option ℕ) → Fields → Result SplunkSearchRequest
unfolding text_field text_or int_or is_sized get
splunk_search_request as_int fs = do
  search ← text_field (is_sized 1 8192) (get "search" fs)
  earliest ← text_or "-24h" (is_sized 0 32) (get "earliest" fs)
  until ← text_or "now" (is_sized 0 32) (get "latest" fs)
  max_rows ← int_or as_int 50 1 500 (get "max_rows" fs)
  ok (record { search = search; earliest = earliest; latest = until; max_rows = max_rows })

-- `AdxQueryRequest`.
pub record AdxQueryRequest : Type 0 where
  pub query : String
  pub max_rows : ℕ

unfoldable pub adx_query_request : (Value → Option ℕ) → Fields → Result AdxQueryRequest
unfolding text_field int_or is_sized get
adx_query_request as_int fs = do
  query ← text_field (is_sized 1 16384) (get "query" fs)
  max_rows ← int_or as_int 50 1 500 (get "max_rows" fs)
  ok (record { query = query; max_rows = max_rows })

-- `ConfluenceSearchRequest`.
pub record ConfluenceSearchRequest : Type 0 where
  pub query : String
  pub limit : ℕ

unfoldable pub confluence_search_request :
    (Value → Option ℕ) → Fields → Result ConfluenceSearchRequest
unfolding text_field int_or is_sized get
confluence_search_request as_int fs = do
  query ← text_field (is_sized 2 512) (get "query" fs)
  limit ← int_or as_int 10 1 50 (get "limit" fs)
  ok (record { query = query; limit = limit })
