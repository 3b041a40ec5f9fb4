-- ===== src/Api/Tools.antt =====
-- The handlers of the tools in src/sprinter/api.py, and `SigmaConverter` of
-- src/sprinter/integrations/sigma.py: a call of a client, which is audited once it has returned.
use sprinter_oss.Prelude.{ℕ, String, Option, some, List, [], ◌∷◌, length}
use sprinter_oss.Json.{
  Value, Elements, Fields, str, list, dict, no_fields, field, no_items, element, number, get,
}
use sprinter_oss.Errors.{Result, ok, err, ◌>>=◌}
use sprinter_oss.Config.{Settings}
use sprinter_oss.Models.{Db}
use sprinter_oss.Auth.{Principal, Request}
use sprinter_oss.Schemas.{invalid}
use sprinter_oss.Schemas.Requests.{
  splunk_search_request, adx_query_request, confluence_search_request,
}
use sprinter_oss.Clients.Splunk as SplunkClient
use sprinter_oss.Clients.Adx as AdxClient
use sprinter_oss.Clients.Confluence as ConfluenceClient
use sprinter_oss.Api.{Response, Server, Context, record_call, guarded}
use sprinter_oss.Api.Handlers.{object_of}

-- A handler of a tool: what it returns, after the call of `audit`, with the draws from the second on.
unfoldable pub tool :
    Context → Settings → String → Result (Value × Fields) → Principal → Db → Result Response × Db
unfolding record_call
tool context settings event (err e) principal db = (err e, db)
tool context settings event (ok (body, payload)) principal db = (
  ok (record { status = 200; body = body }),
  record_call context settings (context.draws 0) (context.draws 1)
      (record { event_type = event; actor = principal.name; payload = dict payload }) db,
)

unfoldable pub texts_value : List String → Elements
texts_value [] = no_items
texts_value (s ∷ ss) = element (str s) (texts_value ss)

unfoldable pub rows_value : List Fields → Elements
rows_value [] = no_items
rows_value (row ∷ rows) = element (dict row) (rows_value rows)

unfoldable pub splunk_body : SplunkClient.SearchResult → Value
unfolding rows_value number
splunk_body r = dict (
    field "rows" (list (rows_value r.rows)) (
      field "count" (number r.count)
        (field "search" (str r.search) (field "url" (str r.url) no_fields))))

unfoldable pub searched :
    SplunkClient.Host → Settings → (Value → Option ℕ) → Value → Result (Value × Fields)
unfolding object_of splunk_search_request SplunkClient.search splunk_body
searched host settings as_int body = do
  fs ← object_of body
  payload ← splunk_search_request as_int fs
  result ←
      SplunkClient.search host settings payload.search payload.earliest payload.latest
        payload.max_rows
  ok (splunk_body result, field "search" (str result.search) no_fields)

-- `splunk_search`.
unfoldable pub splunk_search :
    Context
    → Settings
    → SplunkClient.Host
    → (Value → Option ℕ)
    → Request
    → Value
    → Server
    → Response × Server
unfolding guarded tool searched
splunk_search context settings host as_int request body server =
    guarded context settings "tools:splunk" request
      (tool context settings "tool.splunk" (searched host settings as_int body)) server

unfoldable pub queried :
    AdxClient.Host → Settings → (Value → Option ℕ) → Value → Result (Value × Fields)
unfolding object_of adx_query_request AdxClient.query rows_value number
queried host settings as_int body = do
  fs ← object_of body
  payload ← adx_query_request as_int fs
  result ← AdxClient.query host settings payload.query payload.max_rows
  ok (
    dict (
        field "rows" (list (rows_value result.rows))
          (field "count" (number result.count) (field "query" (str result.query) no_fields))),
    field "query" (str result.query) no_fields,
  )

-- `adx_query`.
unfoldable pub adx_query :
    Context
    → Settings
    → AdxClient.Host
    → (Value → Option ℕ)
    → Request
    → Value
    → Server
    → Response × Server
unfolding guarded tool queried
adx_query context settings host as_int request body server =
    guarded context settings "tools:adx" request
      (tool context settings "tool.adx" (queried host settings as_int body)) server

unfoldable pub pages_value : List ConfluenceClient.Page → Elements
pages_value [] = no_items
pages_value (page ∷ pages) =
    element
      (dict (
        field "id" page.id (
          field "title" page.title
            (field "space" page.space (field "url" (str page.url) no_fields)))))
      (pages_value pages)

unfoldable pub looked_up :
    ConfluenceClient.Host → Settings → (Value → Option ℕ) → Value → Result (Value × Fields)
unfolding object_of confluence_search_request ConfluenceClient.search pages_value number
looked_up host settings as_int body = do
  fs ← object_of body
  payload ← confluence_search_request as_int fs
  result ← ConfluenceClient.search host settings payload.query payload.limit
  ok (
    dict
        (field "results" (list (pages_value result.0)) (field "count" (number result.1) no_fields)),
    field "query" (str payload.query) no_fields,
  )

-- `confluence_search`.
unfoldable pub confluence_search :
    Context
    → Settings
    → ConfluenceClient.Host
    → (Value → Option ℕ)
    → Request
    → Value
    → Server
    → Response × Server
unfolding guarded tool looked_up
confluence_search context settings host as_int request body server =
    guarded context settings "tools:confluence" request
      (tool context settings "tool.confluence" (looked_up host settings as_int body)) server

-- `SigmaConvertRequest`.
unfoldable pub rule_of : Fields → Result Fields
unfolding get
rule_of fs = elim (get "rule" fs) [ some (dict rule) ↦ ok rule | _ ↦ invalid ]

-- `SigmaConverter.convert` of src/sprinter/integrations/sigma.py, and what is audited of it. What
-- pySigma makes of a rule is the argument.
unfoldable pub converted : (Fields → Result (List String)) → Value → Result (Value × Fields)
unfolding object_of rule_of number
converted convert body = do
  fs ← object_of body
  rule ← rule_of fs
  queries ← convert rule
  ok (
    dict (
        field "queries" (list (texts_value queries))
          (field "count" (number (length queries)) no_fields)),
    field "query_count" (number (length queries)) no_fields,
  )

-- `sigma_convert`.
unfoldable pub sigma_convert :
    Context
    → Settings
    → (Fields → Result (List String))
    → Request
    → Value
    → Server
    → Response × Server
unfolding guarded tool converted
sigma_convert context settings convert request body server =
    guarded context settings "tools:sigma" request
      (tool context settings "tool.sigma" (converted convert body)) server
