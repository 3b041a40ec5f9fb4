-- ===== src/Models.antt =====
-- src/sprinter/models.py: the rows of the database, and the database as a record of its tables.
--
-- An instant (`datetime`) is the number of microseconds since datetime.min. A column that is a
-- Python enum or one of a fixed set of words is a data type with a constructor for each word.
pub mod Table
use sprinter_oss.Prelude.{ℕ, String, Bool, Option, none, List, [], ◌+◌, ◌*◌}
use Prim.Native.String.{◌++◌}
use sprinter_oss.Json.{Value}

-- `timedelta(seconds=n)` and `timedelta(days=n)`.
abbrev pub seconds : ℕ → ℕ
seconds n = n * 1000000

abbrev pub day : ℕ
day = 86400000000

abbrev pub days : ℕ → ℕ
days n = n * day

-- What `utcnow()` and `uuid4().hex` return during one call of the database: the k-th reading of
-- the clock and the k-th identifier.
pub record Draws : Type 0 where
  pub clock : ℕ → ℕ
  pub uuid : ℕ → String

-- `new_id(prefix)`, from the hex digits of the uuid.
unfoldable pub new_id : String → String → String
new_id prefix hex = prefix ++ ("_" ++ hex)

pub data JobStatus : Type 0 where
  pending running retry succeeded failed : JobStatus

pub record Job : Type 0 where
  pub id : String
  pub idempotency_key : String
  pub selector_type : String
  pub selector_json : Value
  pub source : String
  pub summary_json : Value
  pub row_limit : ℕ
  pub status : JobStatus
  pub attempts : ℕ
  pub max_attempts : ℕ
  pub available_at : ℕ
  pub claimed_at : Option ℕ
  pub completed_at : Option ℕ
  pub result_json : Option Value
  pub error_json : Option Value
  pub created_at : ℕ
  pub updated_at : ℕ

pub record Evidence : Type 0 where
  pub id : String
  pub job_id : String
  pub kind : String
  pub title : String
  pub uri : String
  pub payload_json : Value
  pub created_at : ℕ
  pub expires_at : ℕ

pub record Decision : Type 0 where
  pub id : String
  pub job_id : String
  pub verdict : String
  pub severity : String
  pub summary : String
  pub rationale_json : Value
  pub model_provider : String
  pub model_id : String
  pub pi_version : String
  pub created_at : ℕ

pub record Finding : Type 0 where
  pub id : String
  pub dedupe_key : String
  pub decision_id : String
  pub occurrences : ℕ
  pub first_seen_at : ℕ
  pub last_seen_at : ℕ

pub record AuditEvent : Type 0 where
  pub id : String
  pub event_type : String
  pub actor : String
  pub payload_json : Value
  pub created_at : ℕ
  pub expires_at : ℕ

pub data DeliveryStatus : Type 0 where
  pending retry sent failed : DeliveryStatus

pub record Outbox : Type 0 where
  pub id : String
  pub channel : String
  pub target_id : String
  pub payload_json : Value
  pub status : DeliveryStatus
  pub attempts : ℕ
  pub max_attempts : ℕ
  pub available_at : ℕ
  pub last_error : String
  pub created_at : ℕ
  pub updated_at : ℕ

pub record TeamsInstallation : Type 0 where
  pub id : String
  pub tenant_id : String
  pub conversation_id : String
  pub service_url : String
  pub scope : String
  pub reference_json : String
  pub enabled : Bool
  pub active : Bool
  pub discovered_at : ℕ
  pub last_seen_at : ℕ

pub record WorkerHealth : Type 0 where
  pub heartbeat_at : ℕ
  pub pi_ready : Bool
  pub pi_checked_at : Option ℕ
  pub pi_error : String
  pub details_json : Value

pub record RetentionMetadata : Type 0 where
  pub last_run_at : Option ℕ
  pub details_json : Value

-- The tables, each in the order of insertion. `worker_health` and `retention_metadata` hold at most
-- the one row that the program writes.
pub record Db : Type 0 where
  pub jobs : List Job
  pub evidence : List Evidence
  pub decisions : List Decision
  pub findings : List Finding
  pub audit_events : List AuditEvent
  pub delivery_outbox : List Outbox
  pub teams_installations : List TeamsInstallation
  pub worker_health : Option WorkerHealth
  pub retention_metadata : Option RetentionMetadata

-- A database as the migration creates it.
abbrev pub empty_db : Db
empty_db = record {
  jobs = [];
  evidence = [];
  decisions = [];
  findings = [];
  audit_events = [];
  delivery_outbox = [];
  teams_installations = [];
  worker_health = none;
  retention_metadata = none;
}
