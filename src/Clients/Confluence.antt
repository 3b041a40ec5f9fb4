-- ===== src/Clients/Confluence.antt =====
-- `ConfluenceClient` of src/sprinter/integrations/confluence.py. `fetch` sends the request and gives
-- the JSON value of the answer; `repr` is Python's text of a list or a dict.
pub mod Literals
use text.Mathlib.Text.{is_le, is_eq}
use Prim.Native.String.{compare, ◌++◌ as ◌⧺◌}
use sprinter_oss.Prelude.{
  ℕ, suc, zero, String, Bool, true, false, Option, none, some, List, [], ◌∷◌, ◌++◌, map, ◌==◌,
  string_eq, if◌then◌else◌, length, take, replace, join, rstrip_char, decimal, ◌≡◌, refl,
}
use sprinter_oss.Json.{
  Value, Elements, Fields, null, bool, num, str, list, dict, no_fields, field, no_items, element,
  get, truthy, items,
}
use sprinter_oss.Errors.{
  Result, ok, err, ◌>>=◌, runtime_error, type_error, key_error, attribute_error,
}
use sprinter_oss.Dynamic.{show, as_dict, or_empty, get_or_null, text_of}
use sprinter_oss.Config.{Settings, allowed_confluence_spaces}
use sprinter_oss.Config.Runtime.{Files, secret_value, confluence}
use sprinter_oss.Clients.Adx.{letters_of}

-- A text put in its place in a sorted set.
unfoldable pub insert_name : String → List String → List String
insert_name x [] = x ∷ []
insert_name x (y ∷ ys) =
    if x == y then y ∷ ys else if is_le (compare x y) then x ∷ y ∷ ys else y ∷ insert_name x ys

-- `sorted` of the set of a list.
unfoldable pub sorted_names : List String → List String
unfolding insert_name
sorted_names [] = []
sorted_names (x ∷ xs) = insert_name x (sorted_names xs)

-- `query.replace('"', '\\"')`.
unfoldable pub escaped_query : String → String
unfolding replace
escaped_query query = replace "\"" "\\\"" query

-- `f'text ~ "{escaped}"'`.
unfoldable pub text_clause : String → String
unfolding escaped_query
text_clause query = "text ~ \"" ⧺ (escaped_query query ⧺ "\"")

abbrev pub in_quotes : String → String
in_quotes space = "\"" ⧺ (space ⧺ "\"")

-- The clauses after the first.
unfoldable pub space_clauses : List String → List String
unfolding sorted_names join
space_clauses [] = []
space_clauses (space ∷ spaces) =
    ("space in (" ⧺ (join "," (map in_quotes (sorted_names (space ∷ spaces))) ⧺ ")")) ∷ []

-- `cql`.
unfoldable pub cql_of : Settings → String → String
unfolding text_clause space_clauses join allowed_confluence_spaces
cql_of settings query =
    join " and " (text_clause query ∷ space_clauses (allowed_confluence_spaces settings))

-- The request of a search.
pub record PageRequest : Type 0 where
  pub url : String
  pub email : String
  pub api_token : String
  pub cql : String
  pub limit : ℕ

pub record Host : Type 0 where
  pub repr : Value → String
  pub files : Files
  pub fetch : PageRequest → Result Value

-- A result; what the answer gives for the three first is passed on, None where it is missing.
pub record Page : Type 0 where
  pub id : Value
  pub title : Value
  pub space : Value
  pub url : String

-- `value[:limit]`, whose items are then read.
unfoldable pub first_items : ℕ → Value → Result (List Value)
unfolding items letters_of
first_items limit (list xs) = ok (take limit (items xs))
first_items limit (str s) = ok (take limit (letters_of s))
first_items limit null = err type_error
first_items limit (bool b) = err type_error
first_items limit (num z t) = err type_error
first_items limit (dict fs) = err (key_error "slice")

-- `payload.get("results", [])[:limit]`.
unfoldable pub results_of : ℕ → Value → Result (List Value)
unfolding as_dict first_items get
results_of limit payload = do
  fs ← as_dict payload
  elim (get "results" fs) [ none ↦ ok [] | some v ↦ first_items limit v ]

-- The loop's body. The text of a link that is no text is Python's.
unfoldable pub page_of : Host → Settings → Value → Result Page
unfolding as_dict or_empty get_or_null text_of rstrip_char
page_of host settings item = do
  fs ← as_dict item
  links ← or_empty (get_or_null "_links" fs)
  space ← or_empty (get_or_null "space" fs)
  let webui : String = text_of host.repr "webui" "" links
  ok (record {
    id = get_or_null "id" fs;
    title = get_or_null "title" fs;
    space = get_or_null "key" space;
    url = if webui == "" then "" else rstrip_char "/" settings.confluence_base_url ⧺ webui;
  })

unfoldable pub pages_of : Host → Settings → List Value → Result (List Page)
unfolding page_of
pages_of host settings [] = ok []
pages_of host settings (item ∷ rest) = do
  page ← page_of host settings item
  pages ← pages_of host settings rest
  ok (page ∷ pages)

-- `search`: the results and their number.
unfoldable pub search : Host → Settings → String → ℕ → Result (List Page × ℕ)
unfolding cql_of secret_value rstrip_char results_of pages_of
search host settings query limit =
    if settings.confluence_base_url == ""
    then err (runtime_error "Confluence is not configured")
    else (do
      api_token ← secret_value host.files settings confluence
      payload ← host.fetch (record {
        url = rstrip_char "/" settings.confluence_base_url ⧺ "/rest/api/content/search";
        email = settings.confluence_email;
        api_token = api_token;
        cql = cql_of settings query;
        limit = limit;
      })
      found ← results_of limit payload
      pages ← pages_of host settings found
      ok (pages, length pages))
