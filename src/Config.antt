-- ===== src/Config.antt =====
-- `Settings` of src/sprinter/config.py and its properties. Its child modules are the token records
-- and the checks that are made at the start of a process.
pub mod Tokens
pub mod Runtime
use sprinter_oss.Prelude.{
  ℕ, String, Bool, Option, List, [], ◌∷◌, ◌++◌, map, strip, split, nonempty, is_char, string_eq,
  ◌==◌,
}

-- `Settings`, the fields that the modelled code reads. A secret and a path are their texts.
pub record Settings : Type 0 where
  pub environment : String
  pub host : String
  pub database_path : String
  pub api_token_records : String
  pub max_body_bytes : ℕ
  pub rate_limit_per_minute : ℕ
  pub worker_stale_seconds : ℕ
  pub job_max_attempts : ℕ
  pub job_retention_days : ℕ
  pub evidence_retention_days : ℕ
  pub audit_retention_days : ℕ
  pub teams_installation_retention_days : ℕ
  pub pi_command : String
  pub pi_expected_version : String
  pub pi_provider : String
  pub pi_model : String
  pub pi_thinking : String
  pub pi_timeout_seconds : ℕ
  pub pi_max_output_bytes : ℕ
  pub pi_probe_interval_seconds : ℕ
  pub model_data_policy_ack : Bool
  pub prompt_max_rows : ℕ
  pub prompt_extra_redact_keys : String
  pub splunk_base_url : String
  pub splunk_web_url : String
  pub splunk_hec_url : String
  pub splunk_hec_token : Option String
  pub splunk_hec_token_file : Option String
  pub splunk_username : String
  pub splunk_password : Option String
  pub splunk_password_file : Option String
  pub splunk_ca_file : Option String
  pub splunk_allowed_indexes : String
  pub splunk_results_index : String
  pub adx_cluster_url : String
  pub adx_database : String
  pub adx_tenant_id : String
  pub adx_client_id : String
  pub adx_client_secret : Option String
  pub adx_client_secret_file : Option String
  pub adx_allowed_tables : String
  pub confluence_base_url : String
  pub confluence_email : String
  pub confluence_api_token : Option String
  pub confluence_api_token_file : Option String
  pub confluence_allowed_spaces : String
  pub teams_enabled : Bool
  pub teams_app_id : String
  pub teams_tenant_id : String
  pub teams_client_secret : Option String
  pub teams_client_secret_file : Option String
  pub teams_allowed_tenant_ids : String
  pub teams_public_base_url : String

-- `part.strip() for part in text.split(",") if part.strip()`.
unfoldable pub csv : String → List String
unfolding strip split nonempty
csv text = nonempty (map strip (split (is_char ",") text))

unfoldable pub allowed_splunk_indexes : Settings → List String
unfolding csv
allowed_splunk_indexes settings = csv settings.splunk_allowed_indexes

unfoldable pub allowed_adx_tables : Settings → List String
unfolding csv
allowed_adx_tables settings = csv settings.adx_allowed_tables

unfoldable pub allowed_confluence_spaces : Settings → List String
unfolding csv
allowed_confluence_spaces settings = csv settings.confluence_allowed_spaces

unfoldable pub allowed_teams_tenants : Settings → List String
unfolding csv
allowed_teams_tenants settings = csv settings.teams_allowed_tenant_ids

abbrev pub default_redaction_keys : List String
default_redaction_keys =
    "authorization" ∷ "password" ∷ "secret" ∷ "token" ∷ "api_key" ∷ "apikey" ∷ "credential"
    ∷ "cookie" ∷ []

-- `redaction_keys`; `lower` is `str.lower`.
unfoldable pub redaction_keys : (String → String) → Settings → List String
unfolding csv
redaction_keys lower settings =
    default_redaction_keys ++ map lower (csv settings.prompt_extra_redact_keys)
