-- ===== src/Clients/Splunk.antt =====
-- `SplunkClient` of src/sprinter/integrations/splunk.py.
--
-- `lower` is `str.lower`, `is_word` the characters of `\w`, `shown` the text of a sorted list of names;
-- `post` sends the request to Splunk and gives the lines of its answer, and `post_hec` sends an event.
pub mod Allowed
use Prim.Native.Char.{Char}
use Prim.Native.String.{◌++◌ as ◌⧺◌}
use sprinter_oss.Prelude.{
  ℕ, zero, suc, ◌-◌, min, String, Bool, true, false, not, ◌&&◌, ◌||◌, Option, none, some, List, [],
  ◌∷◌, ◌++◌, ◌==◌, nat_eq, string_eq, leb, if◌then◌else◌, length, take, chars, strip, lstrip, cut,
  words, join, rstrip_char, is_char, is_space, has_prefix, ◌≡◌, refl,
}
use sprinter_oss.Json.{Value, Fields, null, bool, num, str, list, dict, get}
use sprinter_oss.Errors.{Result, ok, err, ◌>>=◌, value_error, runtime_error}
use sprinter_oss.Models.Table.{exists, select}
use sprinter_oss.Config.{Settings, allowed_splunk_indexes}
use sprinter_oss.Config.Tokens.{after_prefix, is_empty}
use sprinter_oss.Config.Runtime.{Files, secret_value, read_secret, splunk}
use sprinter_oss.Clients.Patterns.{has_command, after_word, span, is_ascii_letter, is_digit, letter}

-- `[A-Za-z0-9_.:-]` under `(?i)`.
unfoldable pub is_index_char : Char → Bool
unfolding is_ascii_letter is_digit letter
is_index_char c =
    (leb 97 (letter c) && leb (letter c) 122)
    || (is_digit c || (is_char "_" c || (is_char "." c || (is_char ":" c || is_char "-" c))))

-- `q([^q]+)q`, after the first quote: the text between the quotes and what follows.
unfoldable pub quoted : String → String → Option (String × String)
unfolding cut
quoted quote s = elim (cut (is_char quote) s) [
  | none ↦ none
  | some (name, rest) ↦ if name == "" then none else some (name, rest)
]

unfoldable pub bare : String → Option (String × String)
unfolding span is_index_char
bare s = let (name, rest) = span is_index_char s in if name == "" then none else some (name, rest)

-- The name of an index: between double quotes, between single quotes, or bare.
unfoldable pub index_name : String → Option (String × String)
unfolding quoted bare after_prefix
index_name s = elim (after_prefix "\"" s) [
  | some rest ↦ quoted "\"" rest
  | none ↦ elim (after_prefix "'" s) [ some rest ↦ quoted "'" rest | none ↦ bare s ]
]

-- `index\s*=\s*(?:...)` at the beginning of a text: the name and what follows it.
unfoldable pub index_at : String → Option (String × String)
unfolding after_word after_prefix lstrip index_name
index_at s = elim (after_word "index" s) [
  | none ↦ none
  | some rest ↦ elim (after_prefix "=" (lstrip rest)) [
    | none ↦ none
    | some value ↦ index_name (lstrip value)
  ]
]

-- `[\s|(]`.
unfoldable pub opens_index : Char → Bool
unfolding is_space
opens_index c = is_space c || (is_char "|" c || is_char "(" c)

-- `INDEX` at the beginning of a text, which may be the beginning of the search.
unfoldable pub match_index : Bool → String → Option (String × String)
unfolding index_at opens_index
match_index at_start String.[] = none
match_index at_start (String.◌∷◌ c s) =
    elim (if at_start then index_at (String.◌∷◌ c s) else none) [
      | some found ↦ some found
      | none ↦ if opens_index c then index_at s else none
    ]

-- `INDEX.findall(clean)`: the names, from the left, where a match begins after the end of the one
-- before it. The number is that of the characters that the last match still holds.
unfoldable pub find_indexes : Bool → ℕ → String → List String
unfolding match_index
find_indexes at_start skip String.[] = []
find_indexes at_start (suc skip) (String.◌∷◌ c s) = find_indexes false skip s
find_indexes at_start zero (String.◌∷◌ c s) = elim (match_index at_start (String.◌∷◌ c s)) [
  | none ↦ find_indexes false 0 s
  | some (name, rest) ↦ name ∷ find_indexes false (chars s - chars rest) s
]

unfoldable pub indexes_of : String → List String
unfolding find_indexes
indexes_of clean = find_indexes true 0 clean

abbrev pub blocked_commands : List String
blocked_commands =
    "delete" ∷ "outputlookup" ∷ "collect" ∷ "sendemail" ∷ "script" ∷ "run" ∷ "map" ∷ "rest"
    ∷ "loadjob" ∷ "savedsearch" ∷ []

-- `BLOCKED.search(clean)`.
unfoldable pub is_blocked : (Char → Bool) → String → Bool
unfolding has_command
is_blocked is_word clean = has_command is_word blocked_commands clean

-- `" ".join(search.strip().split())`.
unfoldable pub cleaned : String → String
unfolding strip words join
cleaned search = join " " (words (strip search))

-- `index in allowed`.
abbrev pub is_in : List String → String → Bool
is_in allowed index = exists (λ a. a == index) allowed

-- `indexes - allowed`.
unfoldable pub forbidden : Settings → List String → List String
unfolding allowed_splunk_indexes
forbidden settings indexes = select (λ i. not (is_in (allowed_splunk_indexes settings) i)) indexes

unfoldable pub prefixed : (String → String) → String → String
prefixed lower clean = if has_prefix "search " (lower clean) then clean else "search " ⧺ clean

-- `validate`, on the cleaned search.
unfoldable pub validate_clean :
    (String → String) → (Char → Bool) → (List String → String) → Settings → String → Result String
unfolding is_blocked indexes_of forbidden prefixed
validate_clean lower is_word shown settings clean =
    if is_blocked is_word clean
    then err (value_error "Splunk search contains a disallowed command")
    else if is_empty (indexes_of clean)
    then err (value_error "Splunk searches must include an explicit index")
    else if is_empty (forbidden settings (indexes_of clean))
    then ok (prefixed lower clean)
    else err (
        value_error
          ("Splunk indexes are not allowed: " ⧺ shown (forbidden settings (indexes_of clean))))

-- `validate`.
unfoldable pub validate :
    (String → String) → (Char → Bool) → (List String → String) → Settings → String → Result String
unfolding cleaned validate_clean
validate lower is_word shown settings search =
    validate_clean lower is_word shown settings (cleaned search)

-- The request of a search.
pub record SearchRequest : Type 0 where
  pub url : String
  pub username : String
  pub password : String
  pub ca_file : Option String
  pub search : String
  pub earliest_time : String
  pub latest_time : String
  pub count : ℕ

-- The request of an event.
pub record EventRequest : Type 0 where
  pub url : String
  pub token : String
  pub ca_file : Option String
  pub event : Value
  pub sourcetype : String

-- What stands outside of the client; `quote` is `urllib.parse.quote` with no safe characters.
pub record Host : Type 0 where
  pub lower : String → String
  pub is_word : Char → Bool
  pub shown : List String → String
  pub quote : String → String
  pub loads : String → Option Value
  pub files : Files
  pub post : SearchRequest → Result (List String)
  pub post_hec : EventRequest → Result Bool

pub record SearchResult : Type 0 where
  pub rows : List Fields
  pub count : ℕ
  pub search : String
  pub url : String

-- The row that a line's value holds.
unfoldable pub row_of : Value → List Fields
unfolding get
row_of (dict fs) = elim (get "result" fs) [ some (dict row) ↦ row ∷ [] | _ ↦ [] ]
row_of null = []
row_of (bool b) = []
row_of (num z t) = []
row_of (str s) = []
row_of (list xs) = []

-- The loop over the lines of the answer.
unfoldable pub rows_of : (String → Option Value) → List String → Result (List Fields)
unfolding row_of
rows_of loads [] = ok []
rows_of loads (line ∷ lines) = if strip line == "" then rows_of loads lines else elim (loads line) [
  | none ↦ err (value_error "JSONDecodeError")
  | some item ↦ do rows ← rows_of loads lines; ok (row_of item ++ rows)
]

-- `search_url`.
unfoldable pub search_url : Host → Settings → String → String
unfolding rstrip_char
search_url host settings search =
    if settings.splunk_web_url == ""
    then ""
    else rstrip_char "/" settings.splunk_web_url
      ⧺ ("/en-US/app/search/search?q=" ⧺ host.quote search)

-- The request for a validated search.
unfoldable pub search_request :
    Host → Settings → String → String → String → ℕ → Result SearchRequest
unfolding secret_value rstrip_char
search_request host settings search earliest latest max_rows = do
  password ← secret_value host.files settings splunk
  ok (record {
    url = rstrip_char "/" settings.splunk_base_url ⧺ "/services/search/jobs/export";
    username = settings.splunk_username;
    password = password;
    ca_file = settings.splunk_ca_file;
    search = search;
    earliest_time = earliest;
    latest_time = latest;
    count = max_rows;
  })

-- `search`.
unfoldable pub search : Host → Settings → String → String → String → ℕ → Result SearchResult
unfolding validate search_request rows_of search_url
search host settings text earliest latest max_rows =
    if settings.splunk_base_url == "" then err (runtime_error "Splunk is not configured") else (do
      clean ← validate host.lower host.is_word host.shown settings text
      request ← search_request host settings clean earliest latest max_rows
      lines ← host.post request
      rows ← rows_of host.loads lines
      ok (record {
        rows = take max_rows rows;
        count = min (length rows) max_rows;
        search = clean;
        url = search_url host settings clean;
      }))

-- `post_event`.
unfoldable pub post_event : Host → Settings → Value → String → Result Bool
unfolding read_secret
post_event host settings event sourcetype =
    if settings.splunk_hec_url == ""
    then err (runtime_error "Splunk HEC is not configured")
    else (do
      token ← read_secret host.files settings.splunk_hec_token settings.splunk_hec_token_file
      host.post_hec (record {
        url = settings.splunk_hec_url;
        token = token;
        ca_file = settings.splunk_ca_file;
        event = event;
        sourcetype = sourcetype;
      }))

indexes_found :
    indexes_of "index=main foo (index = \"a b\") x index:secret | search INDEX='c'"
    ≡ "main" ∷ "a b" ∷ "c" ∷ []
unfolding indexes_of
indexes_found = refl

wildcard_found : indexes_of "search index=main*" ≡ "main" ∷ []
unfolding indexes_of
wildcard_found = refl
