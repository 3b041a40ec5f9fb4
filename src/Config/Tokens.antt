-- ===== src/Config/Tokens.antt =====
-- The token records of src/sprinter/config.py: verifiers, and `parse_token_records`.
--
-- scrypt is not in the repository: `digest` gives the hex digits of the hash of a token under the hex
-- digits of a salt.
pub mod Records
pub mod Verifiers
use Prim.Native.Char.{Char, code}
use Prim.Native.String.{◌++◌ as ◌⧺◌}
use sprinter_oss.Prelude.{
  ℕ, zero, suc, String, Bool, true, false, not, ◌&&◌, ◌||◌, Option, none, some, List, [], ◌∷◌, ◌++◌,
  ◌==◌, string_eq, nat_eq, leb, if◌then◌else◌, map, chars, strip, split, cut, nonempty, is_char,
}
use sprinter_oss.Errors.{Result, ok, err, ◌>>=◌, value_error}
use sprinter_oss.Models.Table.{exists, select}

-- `TokenRecord`; the scopes are a set, kept as a list.
pub record TokenRecord : Type 0 where
  pub name : String
  pub verifier : String
  pub scopes : List String

abbrev pub all_scopes : List String
all_scopes =
    "reviews:write" ∷ "jobs:read" ∷ "tools:splunk" ∷ "tools:adx" ∷ "tools:confluence"
    ∷ "tools:sigma" ∷ "teams:admin" ∷ "admin" ∷ []

-- `[0-9a-f]`.
unfoldable pub is_hex : Char → Bool
is_hex c = let n : ℕ = code c in (leb b'0' n && leb n b'9') || (leb b'a' n && leb n b'f')

-- A text of n hex digits and nothing more.
unfoldable pub is_hex_text : ℕ → String → Bool
unfolding is_hex
is_hex_text zero String.[] = true
is_hex_text zero (String.◌∷◌ c s) = false
is_hex_text (suc n) String.[] = false
is_hex_text (suc n) (String.◌∷◌ c s) = is_hex c && is_hex_text n s

-- What follows a prefix.
unfoldable pub after_prefix : String → String → Option String
after_prefix String.[] s = some s
after_prefix (String.◌∷◌ c p) String.[] = none
after_prefix (String.◌∷◌ c p) (String.◌∷◌ d s) =
    if String.◌∷◌ c "" == String.◌∷◌ d "" then after_prefix p s else none

abbrev pub verifier_prefix : String
verifier_prefix = "scrypt_16384_8_1_"

-- `TOKEN_VERIFIER.fullmatch(verifier)`: its two groups, the digits of the salt and of the hash.
unfoldable pub match_verifier : String → Option (String × String)
unfolding after_prefix is_hex_text cut
match_verifier verifier = elim (after_prefix verifier_prefix verifier) [
  | none ↦ none
  | some rest ↦ elim (cut (is_char "_") rest) [
    | none ↦ none
    | some (salt, hash) ↦
        if is_hex_text 32 salt && is_hex_text 64 hash then some (salt, hash) else none
  ]
]

-- `make_token_verifier`, for a salt of 16 bytes, given by its digits.
unfoldable pub make_token_verifier : (String → String → String) → String → String → String
make_token_verifier digest token salt = verifier_prefix ⧺ (salt ⧺ ("_" ⧺ digest token salt))

-- `verify_token`.
unfoldable pub verify_token : (String → String → String) → String → String → Bool
unfolding match_verifier
verify_token digest token verifier = elim (match_verifier verifier) [
  | none ↦ false
  | some (salt, expected) ↦ digest token salt == expected
]

-- `name, verifier, scopes_csv = item.split(":", 2)`.
unfoldable pub fields_of : String → Option (String × String × String)
unfolding cut
fields_of item = elim (cut (is_char ":") item) [
  | none ↦ none
  | some (name, rest) ↦ elim (cut (is_char ":") rest) [
    | none ↦ none
    | some (verifier, scopes) ↦ some (name, verifier, scopes)
  ]
]

-- The scopes of a record: `filter(None, (scope.strip() for scope in scopes_csv.split(",")))`.
unfoldable pub scopes_of : String → List String
unfolding strip split nonempty
scopes_of scopes_csv = nonempty (map strip (split (is_char ",") scopes_csv))

abbrev pub is_named : String → TokenRecord → Bool
is_named name r = r.name == name

abbrev pub is_known : String → Bool
is_known scope = exists (λ s. s == scope) all_scopes

abbrev pub is_verifier : String → Bool
is_verifier verifier = elim (match_verifier verifier) [ none ↦ false | some groups ↦ true ]

-- `scopes - ALL_SCOPES`.
unfoldable pub unknown_scopes : List String → List String
unknown_scopes scopes = select (λ scope. not (is_known scope)) scopes

unfoldable pub is_empty {ℓ} : {A : Type ℓ} → List A → Bool
is_empty [] = true
is_empty (x ∷ xs) = false

-- The checks of the loop's body on the parts of a record. The text of an error says which check
-- failed; the name of the record and the list of scopes in it are left out.
unfoldable pub checked_record :
    List TokenRecord → String → String → List String → Result TokenRecord
unfolding unknown_scopes is_empty match_verifier
checked_record done name verifier scopes =
    if name == "" || exists (is_named name) done
    then err (value_error "token record names must be unique and non-empty")
    else if not (is_verifier verifier)
    then err (value_error "token record does not contain a valid scrypt verifier")
    else if not (is_empty (unknown_scopes scopes))
    then err (value_error "token record contains unknown scopes")
    else if is_empty scopes
    then err (value_error "token record must contain at least one scope")
    else ok (record { name = name; verifier = verifier; scopes = scopes })

-- The loop's body on an item, with the records that are done.
unfoldable pub parse_record : List TokenRecord → String → Result TokenRecord
unfolding fields_of scopes_of checked_record
parse_record done item = elim (fields_of item) [
  | none ↦ err (value_error "token records must use name:scrypt-verifier:scope,scope")
  | some (name, verifier, scopes_csv) ↦ checked_record done name verifier (scopes_of scopes_csv)
]

-- The loop over the items.
unfoldable pub parse_items : List TokenRecord → List String → Result (List TokenRecord)
unfolding parse_record
parse_items done [] = ok done
parse_items done (item ∷ items) = do r ← parse_record done item; parse_items (done ++ r ∷ []) items

-- `parse_token_records`.
unfoldable pub parse_token_records : String → Result (List TokenRecord)
unfolding parse_items strip split nonempty
parse_token_records raw = parse_items [] (nonempty (map strip (split (is_char ";") raw)))
