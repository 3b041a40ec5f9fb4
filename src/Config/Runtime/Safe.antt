-- ===== src/Config/Runtime/Safe.antt =====
-- What `validate_runtime` of src/sprinter/config.py has checked when it returns.
use sprinter_oss.Prelude.{
  ◌≡◌, refl, subst, String, true, false, not, ◌||◌, List, [], ◌∷◌, ◌++◌, arith, ◌==◌, string_eq,
}
use sprinter_oss.Errors.{ok, ok-bind}
use sprinter_oss.Config.{Settings}
use sprinter_oss.Config.Tokens.{TokenRecord, is_empty, parse_token_records}
use sprinter_oss.Config.Runtime.{
  Files, basic_errors, file_errors, splunk_errors, hec_errors, adx_errors, confluence_errors,
  teams_errors, host_errors, runtime_errors, reported, validate_runtime,
}
use sprinter_oss.Config.Runtime.Checks.{
  empty-append, IsPrivate, UsesHttps, HasResultsIndex, HasTenants, splunk_errors_empty,
  hec_errors_empty, adx_errors_empty, confluence_errors_empty, teams_errors_empty,
  file_errors_empty, basic_errors_empty, host_errors_empty,
}

-- What a process may rely on once its settings are checked.
pub record IsSafe (files : Files) (settings : Settings) (role : String) : Type 0 where
  pub records :
      (rs : List TokenRecord) × (parse_token_records settings.api_token_records ≡ ok rs)
      × (is_empty rs ≡ false)
  pub pinned : (settings.pi_expected_version == "0.83.0") ≡ true
  pub acknowledged : settings.model_data_policy_ack ≡ true
  pub secret_files :
      IsPrivate files settings.splunk_password_file
      × IsPrivate files settings.splunk_hec_token_file
      × IsPrivate files settings.adx_client_secret_file
      × IsPrivate files settings.confluence_api_token_file
      × IsPrivate files settings.teams_client_secret_file
  pub splunk : UsesHttps settings.splunk_base_url × HasResultsIndex settings
  pub hec : UsesHttps settings.splunk_hec_url
  pub adx : UsesHttps settings.adx_cluster_url
  pub confluence : UsesHttps settings.confluence_base_url
  pub teams : HasTenants settings
  pub loopback :
      (not (settings.environment == "production")
        || (settings.host == "127.0.0.1" || settings.host == "::1"))
      ≡ true
  pub writable :
      (not (role == "worker") || files.can_write (files.parent settings.database_path)) ≡ true

-- The parts of the list of errors.
record Parts (files : Files) (settings : Settings) (role : String) (es : List String) : Type 0 where
  rs : List TokenRecord
  of_splunk : List String
  of_hec : List String
  of_adx : List String
  of_confluence : List String
  of_teams : List String
  parsed : parse_token_records settings.api_token_records ≡ ok rs
  splunk_part : splunk_errors files settings ≡ ok of_splunk
  hec_part : hec_errors files settings ≡ ok of_hec
  adx_part : adx_errors files settings ≡ ok of_adx
  confluence_part : confluence_errors files settings ≡ ok of_confluence
  teams_part : teams_errors files settings ≡ ok of_teams
  whole :
      es
      ≡ basic_errors settings rs
        ++ (file_errors files settings
            ++ (of_splunk
                ++ (of_hec
                    ++ (of_adx
                        ++ (of_confluence ++ (of_teams ++ host_errors files settings role))))))

runtime_errors-Parts :
    (files : Files) (settings : Settings) (role : String) (es : List String)
    → runtime_errors files settings role ≡ ok es
    → Parts files settings role es
unfolding runtime_errors
runtime_errors-Parts files settings role es e =
    let (rs, parsed, e1) = ok-bind (parse_token_records settings.api_token_records) _ es e in
    let (a, splunk_part, e2) = ok-bind (splunk_errors files settings) _ es e1 in
    let (b, hec_part, e3) = ok-bind (hec_errors files settings) _ es e2 in
    let (c, adx_part, e4) = ok-bind (adx_errors files settings) _ es e3 in
    let (d, confluence_part, e5) = ok-bind (confluence_errors files settings) _ es e4 in
    let (t, teams_part, e6) = ok-bind (teams_errors files settings) _ es e5 in
    record {
      rs = rs;
      of_splunk = a;
      of_hec = b;
      of_adx = c;
      of_confluence = d;
      of_teams = t;
      parsed = parsed;
      splunk_part = splunk_part;
      hec_part = hec_part;
      adx_part = adx_part;
      confluence_part = confluence_part;
      teams_part = teams_part;
      whole = ground (arith, e6);
    }

reported_ok : (es : List String) → reported es ≡ ok true → is_empty es ≡ true
unfolding reported is_empty
reported_ok [] e = refl
reported_ok (x ∷ es) e = absurd (ground (arith, e))

validate_runtime_ok :
    (files : Files) (settings : Settings) (role : String)
    → validate_runtime files settings role ≡ ok true
    → (es : List String) × (runtime_errors files settings role ≡ ok es) × (is_empty es ≡ true)
unfolding validate_runtime
validate_runtime_ok files settings role e =
    let (es, made, rest) = ok-bind (runtime_errors files settings role) _ true e in
    (es, made, reported_ok es rest)

-- When `validate_runtime` returns, there is a token record, Pi's version is the pinned one, the policy
-- is acknowledged, the secret files that are named are private, every service that is configured is
-- reached over https, Splunk's results index is an allowed one, with Teams there is an allowed tenant,
-- a production host is on loopback, and a worker can write the directory of the database.
pub validate_runtime-IsSafe :
    (files : Files) (settings : Settings) (role : String)
    → validate_runtime files settings role ≡ ok true
    → IsSafe files settings role
validate_runtime-IsSafe files settings role e =
    let (es, made, none_left) = validate_runtime_ok files settings role e in
    let p = runtime_errors-Parts files settings role es made in
    let e0 = subst (λ xs. is_empty xs ≡ true) p.whole none_left in
    let (b, e1) = empty-append (basic_errors settings p.rs) _ e0 in
    let (f, e2) = empty-append (file_errors files settings) _ e1 in
    let (s, e3) = empty-append p.of_splunk _ e2 in
    let (h, e4) = empty-append p.of_hec _ e3 in
    let (a, e5) = empty-append p.of_adx _ e4 in
    let (c, e6) = empty-append p.of_confluence _ e5 in
    let (t, g) = empty-append p.of_teams _ e6 in
    let basic = basic_errors_empty settings p.rs b in
    record {
      records = (p.rs, p.parsed, basic.0);
      pinned = basic.1;
      acknowledged = basic.2;
      secret_files = file_errors_empty files settings f;
      splunk = splunk_errors_empty files settings p.of_splunk p.splunk_part s;
      hec = hec_errors_empty files settings p.of_hec p.hec_part h;
      adx = adx_errors_empty files settings p.of_adx p.adx_part a;
      confluence = confluence_errors_empty files settings p.of_confluence p.confluence_part c;
      teams = teams_errors_empty files settings p.of_teams p.teams_part t;
      loopback = (host_errors_empty files settings role g).0;
      writable = (host_errors_empty files settings role g).1;
    }
