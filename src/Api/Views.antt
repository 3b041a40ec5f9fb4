-- ===== src/Api/Views.antt =====
-- What the API shows of rows: `job_view` of src/sprinter/engine.py and `installation_view` of
-- src/sprinter/api.py. `iso` is `isoformat`.
use sprinter_oss.Prelude.{ℕ, String, List, [], ◌∷◌, ◌==◌, string_eq}
use sprinter_oss.Json.{
  Value, Elements, null, bool, str, list, dict, no_fields, field, no_items, element, number, loads,
}
use sprinter_oss.Models.{
  JobStatus, Job, Evidence, TeamsInstallation, Db, pending, running, retry, succeeded, failed,
}
use sprinter_oss.Models.Table.{select}

-- The value of the enumeration.
unfoldable pub status_text : JobStatus → String
status_text pending = "pending"
status_text running = "running"
status_text retry = "retry"
status_text succeeded = "succeeded"
status_text failed = "failed"

unfoldable pub evidence_views : List Evidence → Elements
evidence_views [] = no_items
evidence_views (item ∷ rest) =
    element
      (dict (
        field "id" (str item.id) (
          field "kind" (str item.kind)
            (field "title" (str item.title) (field "uri" (str item.uri) no_fields)))))
      (evidence_views rest)

-- `job_view`.
unfoldable pub job_view : (ℕ → String) → Job → Db → Value
unfolding status_text number loads evidence_views select
job_view iso job db = dict (
    field "job_id" (str job.id) (
      field "status" (str (status_text job.status)) (
        field "attempts" (number job.attempts) (
          field "max_attempts" (number job.max_attempts) (
            field "selector" job.selector_json (
              field "source" (str job.source) (
                field "result" (loads job.result_json null) (
                  field "error" (loads job.error_json null) (
                    field "evidence"
                      (list (evidence_views (select (λ item. item.job_id == job.id) db.evidence)))
                      (field "created_at" (str (iso job.created_at))
                        (field "updated_at" (str (iso job.updated_at)) no_fields)))))))))))

-- `installation_view`.
unfoldable pub installation_view : (ℕ → String) → TeamsInstallation → Value
installation_view iso item = dict (
    field "id" (str item.id) (
      field "tenant_id" (str item.tenant_id) (
        field "conversation_id" (str item.conversation_id) (
          field "service_url" (str item.service_url) (
            field "scope" (str item.scope) (
              field "enabled" (bool item.enabled) (
                field "active" (bool item.active) (
                  field "discovered_at" (str (iso item.discovered_at))
                    (field "last_seen_at" (str (iso item.last_seen_at)) no_fields)))))))))

unfoldable pub installation_views : (ℕ → String) → List TeamsInstallation → Elements
unfolding installation_view
installation_views iso [] = no_items
installation_views iso (item ∷ rest) =
    element (installation_view iso item) (installation_views iso rest)
