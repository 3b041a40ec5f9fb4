-- ===== src/Config/Runtime.antt =====
-- `read_secret`, `secret_value` and `validate_runtime` of src/sprinter/config.py. The file system is
-- an argument.
pub mod Checks
pub mod Safe
use Prim.Native.String.{◌++◌ as ◌⧺◌}
use sprinter_oss.Prelude.{
  ℕ, ◌%◌, String, Bool, true, false, not, ◌&&◌, ◌||◌, Option, none, some, List, [], ◌∷◌, ◌++◌, ◌==◌,
  string_eq, nat_eq, if◌then◌else◌, strip, join, has_prefix,
}
use sprinter_oss.Errors.{Result, ok, err, ◌>>=◌, value_error}
use sprinter_oss.Models.Table.{exists}
use sprinter_oss.Config.{Settings, allowed_splunk_indexes, allowed_teams_tenants}
use sprinter_oss.Config.Tokens.{TokenRecord, is_empty, parse_token_records}

-- The file system: the kind, the mode and the text of a path, its directory, and whether a directory
-- can be written.
pub record Files : Type 0 where
  pub is_file : String → Bool
  pub mode : String → ℕ
  pub text : String → Result String
  pub parent : String → String
  pub can_write : String → Bool

-- `read_secret` for the path of a file or none.
unfoldable pub read_file : Files → Option String → Result String
unfolding strip
read_file files none = ok ""
read_file files (some path) = do text ← files.text path; ok (strip text)

-- `read_secret`.
unfoldable pub read_secret : Files → Option String → Option String → Result String
unfolding read_file
read_secret files none path = read_file files path
read_secret files (some secret) path = if secret == "" then read_file files path else ok secret

-- `secret_value`.
pub data SecretName : Type 0 where
  splunk adx confluence teams : SecretName

unfoldable pub secret_value : Files → Settings → SecretName → Result String
unfolding read_secret
secret_value files settings splunk =
    read_secret files settings.splunk_password settings.splunk_password_file
secret_value files settings adx =
    read_secret files settings.adx_client_secret settings.adx_client_secret_file
secret_value files settings confluence =
    read_secret files settings.confluence_api_token settings.confluence_api_token_file
secret_value files settings teams =
    read_secret files settings.teams_client_secret settings.teams_client_secret_file

-- `bool(s)`.
abbrev pub given : String → Bool
given s = not (s == "")

-- An error unless the condition holds.
unfoldable pub require : Bool → String → List String
require holds message = if holds then [] else message ∷ []

-- `mode & 0o077`, as a condition.
unfoldable pub is_private_file : Files → String → Bool
is_private_file files path = files.is_file path && files.mode path % 64 == 0

unfoldable pub private_file : Files → String → Option String → List String
unfolding is_private_file require
private_file files name none = []
private_file files name (some path) =
    require (is_private_file files path) (name ⧺ " must be a private readable file")

unfoldable pub basic_errors : Settings → List TokenRecord → List String
unfolding require is_empty
basic_errors settings records =
    require (not (is_empty records)) "SPRINTER_API_TOKEN_RECORDS is required"
    ++ (require (settings.pi_expected_version == "0.83.0")
          "SPRINTER_PI_EXPECTED_VERSION must remain pinned to 0.83.0"
        ++ (require (given settings.pi_provider && given settings.pi_model)
              "SPRINTER_PI_PROVIDER and SPRINTER_PI_MODEL are required"
            ++ require settings.model_data_policy_ack
                "SPRINTER_MODEL_DATA_POLICY_ACK=1 is required"))

unfoldable pub file_errors : Files → Settings → List String
unfolding private_file
file_errors files settings =
    private_file files "SPRINTER_SPLUNK_CA_FILE" settings.splunk_ca_file
    ++ (private_file files "SPRINTER_SPLUNK_PASSWORD_FILE" settings.splunk_password_file
        ++ (private_file files "SPRINTER_SPLUNK_HEC_TOKEN_FILE" settings.splunk_hec_token_file
            ++ (private_file files "SPRINTER_ADX_CLIENT_SECRET_FILE" settings.adx_client_secret_file
                ++ (private_file files "SPRINTER_CONFLUENCE_API_TOKEN_FILE"
                      settings.confluence_api_token_file
                    ++ private_file files "SPRINTER_TEAMS_CLIENT_SECRET_FILE"
                        settings.teams_client_secret_file))))

-- A secret that is read only if the other part is given.
unfoldable pub both_given : String → Result String → Result Bool
both_given other secret = if other == "" then ok false else (do text ← secret; ok (given text))

unfoldable pub results_index_errors : Settings → List String
unfolding require
results_index_errors settings =
    if settings.splunk_results_index == ""
    then "SPRINTER_SPLUNK_RESULTS_INDEX is required when Splunk is configured" ∷ []
    else require
        (exists (λ i. i == settings.splunk_results_index) (allowed_splunk_indexes settings))
        "SPRINTER_SPLUNK_RESULTS_INDEX must be included in SPRINTER_SPLUNK_ALLOWED_INDEXES"

unfoldable pub splunk_errors : Files → Settings → Result (List String)
unfolding require both_given results_index_errors secret_value
splunk_errors files settings = if settings.splunk_base_url == "" then ok [] else (do
  credentials ← both_given settings.splunk_username (secret_value files settings splunk)
  ok (
      require (has_prefix "https://" settings.splunk_base_url)
        "SPRINTER_SPLUNK_BASE_URL must use HTTPS"
      ++ (require (not (is_empty (allowed_splunk_indexes settings)))
            "SPRINTER_SPLUNK_ALLOWED_INDEXES is required when Splunk is configured"
          ++ (results_index_errors settings
              ++ require credentials "Splunk username and password secret are required"))))

unfoldable pub hec_errors : Files → Settings → Result (List String)
unfolding require read_secret
hec_errors files settings = if settings.splunk_hec_url == "" then ok [] else (do
  token ← read_secret files settings.splunk_hec_token settings.splunk_hec_token_file
  ok (
      require (has_prefix "https://" settings.splunk_hec_url)
        "SPRINTER_SPLUNK_HEC_URL must use HTTPS"
      ++ require (given token) "Splunk HEC token secret is required"))

unfoldable pub adx_errors : Files → Settings → Result (List String)
unfolding require secret_value
adx_errors files settings = if settings.adx_cluster_url == "" then ok [] else (do
  secret ← secret_value files settings adx
  ok (
      require (has_prefix "https://" settings.adx_cluster_url)
        "SPRINTER_ADX_CLUSTER_URL must use HTTPS"
      ++ require
          (given settings.adx_database
            && (given settings.adx_tenant_id && (given settings.adx_client_id && given secret)))
          "ADX database and client credentials are required"))

unfoldable pub confluence_errors : Files → Settings → Result (List String)
unfolding require both_given secret_value
confluence_errors files settings = if settings.confluence_base_url == "" then ok [] else (do
  credentials ← both_given settings.confluence_email (secret_value files settings confluence)
  ok (
      require (has_prefix "https://" settings.confluence_base_url)
        "SPRINTER_CONFLUENCE_BASE_URL must use HTTPS"
      ++ require credentials "Confluence email and API token secret are required"))

unfoldable pub teams_errors : Files → Settings → Result (List String)
unfolding require secret_value
teams_errors files settings =
    if settings.teams_enabled
    then (do
      secret ← secret_value files settings teams
      ok (
          require (given settings.teams_app_id && (given settings.teams_tenant_id && given secret))
            "Teams app, tenant, and client secret configuration are required"
          ++ (require (not (is_empty (allowed_teams_tenants settings)))
                "SPRINTER_TEAMS_ALLOWED_TENANT_IDS is required"
              ++ require (has_prefix "https://" settings.teams_public_base_url)
                  "SPRINTER_TEAMS_PUBLIC_BASE_URL must use HTTPS")))
    else ok []

unfoldable pub host_errors : Files → Settings → String → List String
unfolding require
host_errors files settings role =
    require
      (not (settings.environment == "production")
        || (settings.host == "127.0.0.1" || settings.host == "::1"))
      "SPRINTER_HOST must bind to loopback; container exposure is configured separately"
    ++ require (not (role == "worker") || files.can_write (files.parent settings.database_path))
        ("database directory is not writable: " ⧺ files.parent settings.database_path)

-- `errors`, as `validate_runtime` collects them; a secret file that cannot be read raises.
unfoldable pub runtime_errors : Files → Settings → String → Result (List String)
unfolding basic_errors file_errors splunk_errors hec_errors adx_errors confluence_errors
    teams_errors host_errors
runtime_errors files settings role = do
  records ← parse_token_records settings.api_token_records
  of_splunk ← splunk_errors files settings
  of_hec ← hec_errors files settings
  of_adx ← adx_errors files settings
  of_confluence ← confluence_errors files settings
  of_teams ← teams_errors files settings
  ok (
      basic_errors settings records
      ++ (file_errors files settings
          ++ (of_splunk
              ++ (of_hec
                  ++ (of_adx
                      ++ (of_confluence ++ (of_teams ++ host_errors files settings role)))))))

-- The end of `validate_runtime`.
unfoldable pub reported : List String → Result Bool
unfolding join
reported [] = ok true
reported (e ∷ es) = err (value_error (join "; " (e ∷ es)))

-- `validate_runtime`.
unfoldable pub validate_runtime : Files → Settings → String → Result Bool
unfolding runtime_errors reported
validate_runtime files settings role = do
  errors ← runtime_errors files settings role
  reported errors
