-- ===== src/Clients/Adx.antt =====
-- `AdxClient` of src/sprinter/integrations/adx.py.
--
-- The credential of azure.identity is the argument `get_token`, for a tenant, a client, a secret and
-- a scope; `post` sends the query and gives the JSON value of the answer.
pub mod Tables
use Prim.Native.Char.{Char}
use Prim.Native.String.{◌++◌ as ◌⧺◌}
use sprinter_oss.Prelude.{
  ℕ, String, Bool, true, false, not, ◌&&◌, ◌||◌, Option, none, some, List, [], ◌∷◌, ◌++◌, ◌==◌,
  string_eq, if◌then◌else◌, length, take, decimal, strip, rstrip_char, is_char, lstrip, ◌≡◌, refl,
}
use sprinter_oss.Json.{
  Value, Elements, Fields, null, bool, num, str, list, dict, no_fields, field, no_items, element,
  get, put, truthy, items,
}
use sprinter_oss.Errors.{
  Result, ok, err, ◌>>=◌, value_error, runtime_error, type_error, key_error, attribute_error,
}
use sprinter_oss.Dynamic.{subscript, as_dict, get_or_null, is_text}
use sprinter_oss.Models.Table.{exists}
use sprinter_oss.Config.{Settings, allowed_adx_tables}
use sprinter_oss.Config.Runtime.{Files, secret_value, adx}
use sprinter_oss.Clients.Patterns.{
  has_word_at, has_command_at, occurs, span, is_ascii_letter, is_digit,
}

abbrev pub write_verbs : List String
write_verbs =
    "set" ∷ "append" ∷ "set-or-append" ∷ "drop" ∷ "delete" ∷ "alter" ∷ "create" ∷ "clear" ∷ "rename"
    ∷ "move" ∷ "replace" ∷ []

-- `\.(?:set|...)\b`, after the dot.
unfoldable pub has_verb_at : (Char → Bool) → String → Bool
unfolding has_word_at
has_verb_at is_word s = exists (has_word_at is_word s) write_verbs

-- `WRITE_KQL.search(clean)`.
unfoldable pub is_write : (Char → Bool) → String → Bool
unfolding has_verb_at has_command_at occurs
is_write is_word s =
    occurs (is_char ".") (has_verb_at is_word) s
    || (has_command_at is_word ("into" ∷ []) s
        || occurs (is_char "|") (has_command_at is_word ("into" ∷ [])) s)

-- `";" in clean`.
unfoldable pub has_semicolon : String → Bool
unfolding occurs
has_semicolon s = occurs (is_char ";") (λ rest. true) s

abbrev pub is_name_start : Char → Bool
is_name_start c = is_ascii_letter c || is_char "_" c

abbrev pub is_name_char : Char → Bool
is_name_char c = is_name_start c || is_digit c

-- `TABLE.match(clean)`: the name of the table.
unfoldable pub name_at : String → Option String
unfolding span is_ascii_letter is_digit
name_at String.[] = none
name_at (String.◌∷◌ c s) =
    if is_name_start c then some (String.◌∷◌ c (span is_name_char s).0) else none

unfoldable pub table_of : String → Option String
unfolding name_at lstrip
table_of s = name_at (lstrip s)

unfoldable pub is_allowed_table : Settings → String → Bool
unfolding allowed_adx_tables
is_allowed_table settings name = exists (λ t. t == name) (allowed_adx_tables settings)

unfoldable pub begins_allowed : Settings → String → Bool
unfolding table_of is_allowed_table
begins_allowed settings clean = elim (table_of clean) [
  | none ↦ false
  | some name ↦ is_allowed_table settings name
]

-- `validate`.
unfoldable pub validate : (Char → Bool) → Settings → String → Result String
unfolding strip has_semicolon is_write begins_allowed
validate is_word settings text =
    if has_semicolon (strip text) || is_write is_word (strip text)
    then err (value_error "ADX query must be one read-only statement")
    else if begins_allowed settings (strip text)
    then ok (strip text)
    else err (value_error "ADX query must begin with an allowlisted table")

-- The request of a query.
pub record QueryRequest : Type 0 where
  pub url : String
  pub token : String
  pub db : String
  pub csl : String

pub record Host : Type 0 where
  pub is_word : Char → Bool
  pub files : Files
  pub get_token : String → String → String → String → Result String
  pub post : QueryRequest → Result Value

pub record QueryResult : Type 0 where
  pub rows : List Fields
  pub count : ℕ
  pub query : String

-- `next((table for table in payload if table.get("TableKind") == "PrimaryResult"), {})`.
unfoldable pub primary_of : List Value → Result Fields
unfolding as_dict is_text
primary_of [] = ok no_fields
primary_of (table ∷ tables) = do
  fs ← as_dict table
  if is_text "TableKind" "PrimaryResult" fs then ok fs else primary_of tables

-- The values that a loop over a JSON value runs through.
unfoldable pub keys_of : Fields → List Value
keys_of no_fields = []
keys_of (field k v fs) = str k ∷ keys_of fs

unfoldable pub letters_of : String → List Value
letters_of String.[] = []
letters_of (String.◌∷◌ c s) = str (String.◌∷◌ c "") ∷ letters_of s

unfoldable pub iterate : Value → Result (List Value)
unfolding items keys_of letters_of
iterate (list xs) = ok (items xs)
iterate (dict fs) = ok (keys_of fs)
iterate (str s) = ok (letters_of s)
iterate null = err type_error
iterate (bool b) = err type_error
iterate (num z t) = err type_error

-- `fields.get(key, [])`, in a loop.
unfoldable pub iterate_field : String → Fields → Result (List Value)
unfolding iterate get
iterate_field key fs = elim (get key fs) [ none ↦ ok [] | some v ↦ iterate v ]

-- `[column["ColumnName"] for column in ...]`.
unfoldable pub columns_of : List Value → Result (List Value)
unfolding subscript
columns_of [] = ok []
columns_of (column ∷ columns) = do
  name ← subscript "ColumnName" column
  names ← columns_of columns
  ok (name ∷ names)

-- A key of a row. One that is no text is kept as the text that json writes for it; a list and a dict
-- are no keys.
unfoldable pub key_of : Value → Result String
key_of (str s) = ok s
key_of null = ok "null"
key_of (bool b) = ok (if b then "true" else "false")
key_of (num z t) = ok t
key_of (list xs) = err type_error
key_of (dict fs) = err type_error

-- `dict(zip(columns, row, strict=False))`, on the fields that are done.
unfoldable pub zip_row : Fields → List Value → List Value → Result Fields
unfolding key_of put
zip_row done [] values = ok done
zip_row done (name ∷ names) [] = ok done
zip_row done (name ∷ names) (value ∷ values) = do
  key ← key_of name
  zip_row (put key value done) names values

unfoldable pub rows_of : List Value → List Value → Result (List Fields)
unfolding iterate zip_row
rows_of columns [] = ok []
rows_of columns (row ∷ rows) = do
  values ← iterate row
  fs ← zip_row no_fields columns values
  rest ← rows_of columns rows
  ok (fs ∷ rest)

-- The rows of the answer.
unfoldable pub parsed : Value → Result (List Fields)
unfolding iterate iterate_field primary_of columns_of rows_of
parsed payload = do
  tables ← iterate payload
  primary ← primary_of tables
  column_values ← iterate_field "Columns" primary
  columns ← columns_of column_values
  row_values ← iterate_field "Rows" primary
  rows_of columns row_values

-- The token, and the request for a validated query.
unfoldable pub query_request : Host → Settings → String → ℕ → Result QueryRequest
unfolding secret_value rstrip_char decimal
query_request host settings clean max_rows = do
  secret ← secret_value host.files settings adx
  token ←
      host.get_token settings.adx_tenant_id settings.adx_client_id secret
        (rstrip_char "/" settings.adx_cluster_url ⧺ "/.default")
  ok (record {
    url = rstrip_char "/" settings.adx_cluster_url ⧺ "/v2/rest/query";
    token = token;
    db = settings.adx_database;
    csl = clean ⧺ ("\n| take " ⧺ decimal max_rows);
  })

-- `query`.
unfoldable pub query : Host → Settings → String → ℕ → Result QueryResult
unfolding validate query_request parsed
query host settings text max_rows =
    if settings.adx_cluster_url == "" then err (runtime_error "ADX is not configured") else (do
      clean ← validate host.is_word settings text
      request ← query_request host settings clean max_rows
      payload ← host.post request
      rows ← parsed payload
      ok (record { rows = take max_rows rows; count = length (take max_rows rows); query = clean }))

table_found : table_of "Events | take 5" ≡ some "Events"
unfolding table_of
table_found = refl

write_found : is_write (λ c. is_ascii_letter c) ".drop table Events" ≡ true
unfolding is_write is_ascii_letter exists
write_found = refl
