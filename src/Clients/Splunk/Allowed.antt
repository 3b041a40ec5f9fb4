-- ===== src/Clients/Splunk/Allowed.antt =====
-- What a search that src/sprinter/integrations/splunk.py sends names and does not do.
use Prim.Native.Char.{Char}
use Prim.Native.String.{◌++◌ as ◌⧺◌}
use text.Mathlib.TextLemmas.{nil-append, cons-append}
use sprinter_oss.Prelude.{
  ℕ, ◌≤◌, min, ◌≡◌, refl, subst, ap, ◌∙◌, String, Bool, true, false, List, [], ◌∷◌, arith, ◌==◌,
  string_eq, length, take, length-take, All, Bool-cases, inl, inr, is_char,
}
use sprinter_oss.Json.{Fields}
use sprinter_oss.Errors.{ok, err, value_error, ok-bind}
use sprinter_oss.Models.Table.{select}
use sprinter_oss.Config.Runtime.{secret_value, splunk}
use sprinter_oss.Config.{Settings, allowed_splunk_indexes}
use sprinter_oss.Config.Tokens.{is_empty}
use sprinter_oss.Clients.Patterns.{has_command, has_command_at, occurs}
use sprinter_oss.Clients.Splunk.{
  blocked_commands, is_blocked, cleaned, indexes_of, is_in, forbidden, prefixed, validate_clean,
  validate, Host, SearchResult, SearchRequest, search_request, rows_of, search, search_url,
}

-- What follows a pipe is read wherever the pipe stands.
occurs-append :
    (before : Char → Bool) (follows : String → Bool) (c : Char) (front rest : String)
    → before c ≡ true
    → follows rest ≡ true
    → occurs before follows (front ⧺ String.◌∷◌ c rest) ≡ true
unfolding occurs
occurs-append before follows c String.[] rest b f =
    ap (occurs before follows) (nil-append (String.◌∷◌ c rest)) ∙ ground (arith, b, f)
occurs-append before follows c (String.◌∷◌ d front) rest b f =
    ap (occurs before follows) (cons-append d front (String.◌∷◌ c rest))
    ∙ ground (arith, occurs-append before follows c front rest b f)

blocked-append :
    (is_word : Char → Bool) (front rest : String)
    → has_command_at is_word blocked_commands rest ≡ true
    → is_blocked is_word (front ⧺ ("|" ⧺ rest)) ≡ true
unfolding is_blocked has_command
blocked-append is_word front rest h =
    elim (Bool-cases (has_command_at is_word blocked_commands (front ⧺ ("|" ⧺ rest)))) [
      | inl e ↦ rw e refl
      | inr e ↦ rw e (
          ap (λ t. occurs (is_char "|") (has_command_at is_word blocked_commands) (front ⧺ t))
            (cons-append "|" "" rest ∙ ap (String.◌∷◌ "|") (nil-append rest))
          ∙ occurs-append (is_char "|") (has_command_at is_word blocked_commands) "|" front rest
              refl h)
    ]

-- A cleaned search in which a command of the list follows a pipe, wherever the pipe stands and with
-- any white space between them, is refused.
pub validate_clean-blocked :
    (lower : String → String) (is_word : Char → Bool) (shown : List String → String)
    (settings : Settings) (front rest : String)
    → has_command_at is_word blocked_commands rest ≡ true
    → validate_clean lower is_word shown settings (front ⧺ ("|" ⧺ rest))
      ≡ err (value_error "Splunk search contains a disallowed command")
unfolding validate_clean
validate_clean-blocked lower is_word shown settings front rest h =
    ground (arith, blocked-append is_word front rest h)

-- No name is forbidden exactly if all are allowed.
forbidden-All :
    (settings : Settings) (names : List String)
    → is_empty (forbidden settings names) ≡ true
    → All (λ i. is_in (allowed_splunk_indexes settings) i ≡ true) names
unfolding forbidden select is_empty
forbidden-All settings [] h = tt
forbidden-All settings (i ∷ names) h =
    elim (Bool-cases (is_in (allowed_splunk_indexes settings) i)) [
      | inl e ↦ (e, forbidden-All settings names (rw (e, forbidden) at h))
      | inr e ↦ absurd (ground (arith, (rw (e, forbidden) at h)))
    ]

-- A search without forbidden parts.
pub record IsAllowed (is_word : Char → Bool) (settings : Settings) (clean : String) : Type 0 where
  pub unblocked : is_blocked is_word clean ≡ false
  pub indexed : is_empty (indexes_of clean) ≡ false
  pub allowed : All (λ i. is_in (allowed_splunk_indexes settings) i ≡ true) (indexes_of clean)

validate-IsAllowed :
    (lower : String → String) (is_word : Char → Bool) (shown : List String → String)
    (settings : Settings) (text out : String)
    → validate lower is_word shown settings text ≡ ok out
    → IsAllowed is_word settings (cleaned text) × (out ≡ prefixed lower (cleaned text))
unfolding validate validate_clean
validate-IsAllowed lower is_word shown settings text out h =
    elim (Bool-cases (is_blocked is_word (cleaned text))) [
      | inl b ↦ absurd (ground (arith, b, h))
      | inr b ↦ elim (Bool-cases (is_empty (indexes_of (cleaned text)))) [
        | inl i ↦ absurd (ground (arith, b, i, h))
        | inr i ↦ elim (Bool-cases (is_empty (forbidden settings (indexes_of (cleaned text))))) [
          | inl f ↦ (
            record {
              unblocked = b;
              indexed = i;
              allowed = forbidden-All settings (indexes_of (cleaned text)) f;
            },
            ground (arith, b, i, f, h),
          )
          | inr f ↦ absurd (ground (arith, b, i, f, h))
        ]
      ]
    ]

result_bounds :
    (sent : String) (max_rows : ℕ) (rows : List Fields) (clean url : String) (r : SearchResult)
    → clean ≡ sent
    → ok (record {
      rows = take max_rows rows;
      count = min (length rows) max_rows;
      search = clean;
      url = url;
    })
      ≡ ok r
    → (r.search ≡ sent) × (length r.rows ≤ max_rows) × (r.count ≡ length r.rows)
result_bounds sent max_rows rows clean url r p h =
    let same : record {
      rows = take max_rows rows;
      count = min (length rows) max_rows;
      search = clean;
      url = url;
    }
        ≡ r =
      ground (arith, h) in
    subst
      (λ (q : SearchResult).
        (q.search ≡ sent) × (length q.rows ≤ max_rows) × (q.count ≡ length q.rows))
      same (p, omega (arith, length-take max_rows rows), omega (arith, length-take max_rows rows))

search_request-search :
    (host : Host) (settings : Settings) (clean earliest latest : String) (max_rows : ℕ)
    (request : SearchRequest)
    → search_request host settings clean earliest latest max_rows ≡ ok request
    → (request.search ≡ clean) × (request.count ≡ max_rows)
unfolding search_request
search_request-search host settings clean earliest latest max_rows request h =
    let (_, _, q) = ok-bind (secret_value host.files settings splunk) _ request h in
    (ground (arith, q), ground (arith, q))

-- A search that succeeds was configured; with its white space normalised it holds no command of the
-- list at its beginning or after a pipe, names an index, and names only allowed ones, as the two
-- expressions read it; this text, behind `search ` where that is missing, is what was sent and
-- answered and what is returned, with the requested number of rows; and at most that number comes
-- back, with their count.
pub search-IsAllowed :
    (host : Host) (settings : Settings) (text earliest latest : String) (max_rows : ℕ)
    (r : SearchResult)
    → search host settings text earliest latest max_rows ≡ ok r
    → ((settings.splunk_base_url == "") ≡ false)
      × IsAllowed host.is_word settings (cleaned text)
      × (r.search ≡ prefixed host.lower (cleaned text))
      × ((sent : SearchRequest) × (lines : List String) × (host.post sent ≡ ok lines)
          × (sent.search ≡ prefixed host.lower (cleaned text))
          × (sent.count ≡ max_rows))
      × (length r.rows ≤ max_rows)
      × (r.count ≡ length r.rows)
unfolding search
search-IsAllowed host settings text earliest latest max_rows r h =
    elim (Bool-cases (settings.splunk_base_url == "")) [
      | inl e ↦ absurd (ground (arith, e, h))
      | inr e ↦
          let (clean, f, h1) =
            ok-bind (validate host.lower host.is_word host.shown settings text) _ r
              (rw (e, search) at h) in
          let (request, q, h2) =
            ok-bind (search_request host settings clean earliest latest max_rows) _ r h1 in
          let (lines, answered, h3) = ok-bind (host.post request) _ r h2 in
          let (rows, _, h4) = ok-bind (rows_of host.loads lines) _ r h3 in
          let (a, p) =
            validate-IsAllowed host.lower host.is_word host.shown settings text clean f in
          let (asked, limit) =
            search_request-search host settings clean earliest latest max_rows request q in
          let (sent, bound, count) =
            result_bounds (prefixed host.lower (cleaned text)) max_rows rows clean
              (search_url host settings clean) r p h4 in
          (e, a, sent, (request, lines, answered, asked ∙ p, limit), bound, count)
    ]
