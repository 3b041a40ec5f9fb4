-- ===== src/Config/Runtime/Checks.antt =====
-- What each part of `validate_runtime` of src/sprinter/config.py has checked when it reports nothing.
use sprinter_oss.Prelude.{
  ◌≡◌, refl, String, Bool, true, false, not, ◌&&◌, ◌||◌, Option, none, some, List, [], ◌∷◌, ◌++◌,
  arith, ◌==◌, string_eq, has_prefix,
}
use sprinter_oss.Errors.{ok}
use sprinter_oss.Models.Table.{exists}
use sprinter_oss.Config.{Settings, allowed_splunk_indexes, allowed_teams_tenants}
use sprinter_oss.Config.Tokens.{TokenRecord, is_empty}
use sprinter_oss.Config.Runtime.{
  Files, given, require, is_private_file, private_file, basic_errors, file_errors,
  results_index_errors, splunk_errors, hec_errors, adx_errors, confluence_errors, teams_errors,
  host_errors,
}

pub empty-append :
    (xs ys : List String) → is_empty (xs ++ ys) ≡ true → (is_empty xs ≡ true) × (is_empty ys ≡ true)
unfolding is_empty
empty-append [] ys e = (refl, e)
empty-append (x ∷ xs) ys e = absurd (ground (arith, e))

require_empty : (b : Bool) (m : String) → is_empty (require b m) ≡ true → b ≡ true
unfolding require is_empty
require_empty b m e = ground (arith, e)

-- The path, if there is one, is a file that no other user can read or write.
abbrev pub IsPrivate : Files → Option String → Type 0
IsPrivate files none = Unit
IsPrivate files (some path) = is_private_file files path ≡ true

private_file_empty :
    (files : Files) (name : String) (path : Option String)
    → is_empty (private_file files name path) ≡ true
    → IsPrivate files path
unfolding private_file
private_file_empty files name none e = tt
private_file_empty files name (some path) e = require_empty _ _ e

-- An address that is given uses https.
abbrev pub UsesHttps : String → Type 0
UsesHttps url = (not (given url) || has_prefix "https://" url) ≡ true

-- With Splunk, the results index is an allowed one.
abbrev pub HasResultsIndex : Settings → Type 0
HasResultsIndex settings =
    (not (given settings.splunk_base_url)
      || exists (λ i. i == settings.splunk_results_index) (allowed_splunk_indexes settings))
    ≡ true

pub splunk_errors_empty :
    (files : Files) (settings : Settings) (es : List String)
    → splunk_errors files settings ≡ ok es
    → is_empty es ≡ true
    → UsesHttps settings.splunk_base_url × HasResultsIndex settings
unfolding splunk_errors results_index_errors require is_empty
splunk_errors_empty files settings es e n = (ground (arith, e, n), ground (arith, e, n))

pub hec_errors_empty :
    (files : Files) (settings : Settings) (es : List String)
    → hec_errors files settings ≡ ok es
    → is_empty es ≡ true
    → UsesHttps settings.splunk_hec_url
unfolding hec_errors require is_empty
hec_errors_empty files settings es e n = ground (arith, e, n)

pub adx_errors_empty :
    (files : Files) (settings : Settings) (es : List String)
    → adx_errors files settings ≡ ok es
    → is_empty es ≡ true
    → UsesHttps settings.adx_cluster_url
unfolding adx_errors require is_empty
adx_errors_empty files settings es e n = ground (arith, e, n)

pub confluence_errors_empty :
    (files : Files) (settings : Settings) (es : List String)
    → confluence_errors files settings ≡ ok es
    → is_empty es ≡ true
    → UsesHttps settings.confluence_base_url
unfolding confluence_errors require is_empty
confluence_errors_empty files settings es e n = ground (arith, e, n)

-- With Teams, some tenant is allowed, and the public address uses https.
abbrev pub HasTenants : Settings → Type 0
HasTenants settings =
    (not settings.teams_enabled
      || (not (is_empty (allowed_teams_tenants settings))
          && has_prefix "https://" settings.teams_public_base_url))
    ≡ true

pub teams_errors_empty :
    (files : Files) (settings : Settings) (es : List String)
    → teams_errors files settings ≡ ok es
    → is_empty es ≡ true
    → HasTenants settings
unfolding teams_errors require is_empty
teams_errors_empty files settings es e n = ground (arith, e, n)

pub file_errors_empty :
    (files : Files) (settings : Settings)
    → is_empty (file_errors files settings) ≡ true
    → IsPrivate files settings.splunk_password_file
      × IsPrivate files settings.splunk_hec_token_file
      × IsPrivate files settings.adx_client_secret_file
      × IsPrivate files settings.confluence_api_token_file
      × IsPrivate files settings.teams_client_secret_file
unfolding file_errors
file_errors_empty files settings e =
    let (_, e1) =
      empty-append (private_file files "SPRINTER_SPLUNK_CA_FILE" settings.splunk_ca_file) _ e in
    let (p, e2) =
      empty-append
        (private_file files "SPRINTER_SPLUNK_PASSWORD_FILE" settings.splunk_password_file) _ e1 in
    let (h, e3) =
      empty-append
        (private_file files "SPRINTER_SPLUNK_HEC_TOKEN_FILE" settings.splunk_hec_token_file) _ e2 in
    let (a, e4) =
      empty-append
        (private_file files "SPRINTER_ADX_CLIENT_SECRET_FILE" settings.adx_client_secret_file) _
        e3 in
    let (c, t) =
      empty-append
        (private_file files "SPRINTER_CONFLUENCE_API_TOKEN_FILE" settings.confluence_api_token_file)
        _ e4 in
    (
      private_file_empty files "SPRINTER_SPLUNK_PASSWORD_FILE" settings.splunk_password_file p,
      private_file_empty files "SPRINTER_SPLUNK_HEC_TOKEN_FILE" settings.splunk_hec_token_file h,
      private_file_empty files "SPRINTER_ADX_CLIENT_SECRET_FILE" settings.adx_client_secret_file a,
      private_file_empty files "SPRINTER_CONFLUENCE_API_TOKEN_FILE"
          settings.confluence_api_token_file c,
      private_file_empty files "SPRINTER_TEAMS_CLIENT_SECRET_FILE" settings.teams_client_secret_file
          t,
    )

pub basic_errors_empty :
    (settings : Settings) (rs : List TokenRecord)
    → is_empty (basic_errors settings rs) ≡ true
    → (is_empty rs ≡ false)
      × ((settings.pi_expected_version == "0.83.0") ≡ true)
      × (settings.model_data_policy_ack ≡ true)
unfolding basic_errors require is_empty
basic_errors_empty settings rs e = ground (arith, e)

pub host_errors_empty :
    (files : Files) (settings : Settings) (role : String)
    → is_empty (host_errors files settings role) ≡ true
    → ((not (settings.environment == "production")
          || (settings.host == "127.0.0.1" || settings.host == "::1"))
        ≡ true)
      × ((not (role == "worker") || files.can_write (files.parent settings.database_path)) ≡ true)
unfolding host_errors require is_empty
host_errors_empty files settings role e = (ground (arith, e), ground (arith, e))
