-- ===== src/Examples/Requests.antt =====
-- The requests to the API and what they cause, at concrete inputs.
use sprinter_oss.Prelude.{
  ℕ, ◌≡◌, refl, String, true, false, none, some, List, [], ◌∷◌, ◌==◌, string_eq, length, leb,
  le→leb, ◌≤◌, arith, if◌then◌else◌, has_prefix,
}
use Prim.Native.String.{◌++◌}
use sprinter_oss.Json.{Fields, null, str, list, dict, no_fields, field, no_items, element}
use sprinter_oss.Errors.{ok}
use sprinter_oss.Config.{Settings, allowed_confluence_spaces}
use sprinter_oss.Config.Tokens.{is_empty}
use sprinter_oss.Config.Runtime.{Files}
use sprinter_oss.Models.{new_id}
use sprinter_oss.Models.Table.{exists, find, select}
use sprinter_oss.Jobs.{create_job, new_job}
use sprinter_oss.Jobs.Refinement.{submit, view, verdict, created, create_job-submit}
use sprinter_oss.Auth.{Request, require_scope, bearer_token}
use sprinter_oss.Clients.Patterns.{occurs}
use sprinter_oss.Clients.Splunk as Splunk
use sprinter_oss.Clients.Splunk.Allowed.{search-IsAllowed}
use sprinter_oss.Clients.Adx as Adx
use sprinter_oss.Clients.Confluence.{cql_of}
use sprinter_oss.Clients.Confluence.Literals.{restriction, cql_of-read}
use sprinter_oss.Engine.Evidence.Literals.{read_quoted}
use sprinter_oss.Seer.{build_payload, payload_of}
use sprinter_oss.Seer.Accepted.{IsAccepted, build_payload-IsAccepted}
use sprinter_oss.Api.{Server, Context, detail, guarded, with_access}
use sprinter_oss.Api.BodyLimit.{App, call}
use sprinter_oss.Api.BodyLimit.Bounded.{total, call-bounded}
use sprinter_oss.Api.Handlers.{create_review_job}
use sprinter_oss.Api.Handlers.Refusals.{create_review_job-refused}
use sprinter_oss.Examples.{settings, draws, queue, request}
use sprinter_oss.Examples.Reviews.{services}

abbrev files : Files
files = record {
  is_file = λ path. false;
  mode = λ path. 0;
  text = λ path. ok "";
  parent = λ path. path;
  can_write = λ path. true;
}

abbrev configured : Settings
configured = record settings {
  splunk_base_url = "https://splunk";
  splunk_password = some "p";
  adx_cluster_url = "https://adx";
  adx_client_secret = some "s";
}

abbrev splunk_host : Splunk.Host
splunk_host = record {
  lower = λ s. s;
  is_word = Splunk.is_index_char;
  shown = λ names. "";
  quote = λ s. s;
  loads = λ line. some (dict (field "result" (dict no_fields) no_fields));
  files = files;
  post = λ request. ok ("row" ∷ "" ∷ "row" ∷ []);
  post_hec = λ request. ok true;
}

abbrev found : Splunk.SearchResult
found = record { rows = no_fields ∷ []; count = 1; search = "search index=main x"; url = "" }

search-IsAllowed_example : length found.rows ≡ 1
unfolding Splunk.search Splunk.validate Splunk.rows_of exists select Splunk.search_request is_empty
    has_prefix
search-IsAllowed_example =
    (search-IsAllowed splunk_host configured " index=main  x " "-24h" "now" 1 found refl).5

abbrev adx_host : Adx.Host
adx_host = record {
  is_word = Splunk.is_index_char;
  files = files;
  get_token = λ tenant client secret scope. ok "token";
  post = λ request. ok (
      list (
        element
          (dict (
            field "TableKind" (str "PrimaryResult") (
              field "Columns"
                (list (element (dict (field "ColumnName" (str "a") no_fields)) no_items))
                (field "Rows" (list (element (list (element null no_items)) no_items)) no_fields))))
          no_items));
}

abbrev events : Adx.QueryResult
events = record { rows = field "a" null no_fields ∷ []; count = 1; query = "Events | take 5" }

cql_of-read_example :
    (rest : String) × (cql_of settings "a \"b\"" ≡ "text ~ \"" ++ rest)
    × (read_quoted false rest ≡ some ("a \"b\"", restriction (allowed_confluence_spaces settings)))
unfolding occurs
cql_of-read_example = cql_of-read settings "a \"b\"" refl

abbrev summary : Fields
summary = field "run_id" (str " r1 ") no_fields

build_payload-IsAccepted_example :
    IsAccepted (λ v. some 20) summary (payload_of summary "r1" "stix_ingest", "r1")
unfolding build_payload
build_payload-IsAccepted_example =
    build_payload-IsAccepted (λ v. some 20) summary none
      (payload_of summary "r1" "stix_ingest", "r1") refl refl

abbrev reader : App
reader = record {
  wants = λ got. true;
  respond = λ got. if leb (total got) 10 then detail 200 "ok" else detail 500 "too much";
}

reader_same : (got : List ℕ) → total got ≤ 10 → reader.respond got ≡ detail 200 "ok"
reader_same got h = rw (le→leb (total got) 10 h) refl

call-bounded_example :
    call (λ s. none) 10 none reader (6 ∷ 4 ∷ [])
    ≡ call (λ s. none) 10 none (record reader { respond = λ got. detail 200 "ok" }) (6 ∷ 4 ∷ [])
call-bounded_example =
    call-bounded (λ s. none) 10 none reader (λ got. detail 200 "ok") (6 ∷ 4 ∷ []) reader_same

abbrev context : Context
context = record {
  services = services;
  verify = λ token verifier. token == verifier;
  records = [];
  now = 0;
  draws = λ k. draws 100 "a";
}

abbrev server : Server
server = record { db = queue; limiter = λ key. [] }

abbrev anonymous : Request
anonymous = record { credentials = none; client = none }

create_review_job-refused_example :
    (create_review_job context settings (λ v. none) anonymous null none queue server).1.db.jobs
    ≡ queue.jobs
unfolding create_review_job guarded with_access require_scope bearer_token detail
create_review_job-refused_example =
    create_review_job-refused context settings (λ v. none) anonymous null none queue server
      (λ e. absurd (omega (arith, e)))

create_job-submit_example :
    verdict (create_job settings (request "key-0009" "r1") (draws 100 "z") queue queue).0 ≡ created
unfolding exists new_id submit find view new_job
create_job-submit_example =
    (create_job-submit settings (request "key-0009" "r1") (draws 100 "z") queue refl).0
