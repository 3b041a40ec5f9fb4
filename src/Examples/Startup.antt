-- ===== src/Examples/Startup.antt =====
-- The settings, the token records, the backup and the answers of Pi at concrete inputs.
use sprinter_oss.Prelude.{
  ◌≡◌, refl, String, Bool, true, false, Option, none, some, List, [], ◌∷◌, ◌==◌, string_eq,
  if◌then◌else◌, has_prefix, clip, is_space,
}
use sprinter_oss.Json.{
  get, Value, Fields, bool, str, list, dict, no_fields, field, no_items, element,
}
use sprinter_oss.Errors.{ok}
use sprinter_oss.Config.{Settings}
use sprinter_oss.Config.Tokens.{
  TokenRecord, parse_token_records, make_token_verifier, verify_token, is_hex, is_hex_text,
}
use sprinter_oss.Config.Tokens.Records.{AreRecords, parse_token_records-AreRecords}
use sprinter_oss.Config.Tokens.Verifiers.{verify_token-make_token_verifier}
use sprinter_oss.Config.Runtime.{Files, validate_runtime}
use sprinter_oss.Config.Runtime.Safe.{IsSafe, validate_runtime-IsSafe}
use sprinter_oss.Pi.Rpc.{
  Host, Lines, line, ended, started, printed, version, rpc_prompt, run_session, rpc_loop, on_line,
}
use sprinter_oss.Pi.Reviews.{review, checked_version, same_version}
use sprinter_oss.Dynamic.{is_text}
use sprinter_oss.Pi.Transcript.{is_accepted, rpc_prompt-transcript}
use sprinter_oss.Pi.Reviewed.{review-IsDecision}
use sprinter_oss.Backup.{
  Disk, Sqlite, backup_database, restore_database, checksum_path, check_copy, write_checksum,
}
use sprinter_oss.Backup.Restored.{Restores, restore_database-Restores}
use sprinter_oss.Backup.Roundtrip.{restore_database-backup_database}
use sprinter_oss.Engine.{PiResult}
use sprinter_oss.Schemas.{model_validate}
use sprinter_oss.Models.Table.{exists, select}
use sprinter_oss.Examples.{settings}

abbrev digits : String
digits = "0123456789abcdef0123456789abcdef"

abbrev raw_records : String
raw_records =
    "op:scrypt_16384_8_1_0123456789abcdef0123456789abcdef_0123456789abcdef0123456789abcdef0123456789abcdef0123456789abcdef:reviews:write, admin; "

abbrev parsed_records : List TokenRecord
parsed_records =
    record {
      name = "op";
      verifier =
          "scrypt_16384_8_1_0123456789abcdef0123456789abcdef_0123456789abcdef0123456789abcdef0123456789abcdef0123456789abcdef";
      scopes = "reviews:write" ∷ "admin" ∷ [];
    }
    ∷ []

parse_token_records-AreRecords_example : AreRecords parsed_records
unfolding parse_token_records exists select
parse_token_records-AreRecords_example =
    (parse_token_records-AreRecords raw_records parsed_records refl).0

abbrev hash_of_secret : String
hash_of_secret = "0123456789abcdef0123456789abcdef0123456789abcdef0123456789abcdef"

abbrev hash_of_others : String
hash_of_others = "ffffffffffffffffffffffffffffffffffffffffffffffffffffffffffffffff"

abbrev hash_if : Bool → String
hash_if true = hash_of_secret
hash_if false = hash_of_others

-- Stands in for scrypt.
abbrev digest : String → String → String
digest token salt = hash_if (token == "secret")

hash_if_hex : (b : Bool) → is_hex_text 64 (hash_if b) ≡ true
unfolding is_hex_text is_hex
hash_if_hex true = refl
hash_if_hex false = refl

verify_token-make_token_verifier_example :
    verify_token digest "secret" (make_token_verifier digest "secret" digits) ≡ true
unfolding is_hex_text is_hex
verify_token-make_token_verifier_example =
    verify_token-make_token_verifier digest "secret" "secret" digits refl
      (λ t. hash_if_hex (t == "secret"))

abbrev files : Files
files = record {
  is_file = λ path. true;
  mode = λ path. 384;
  text = λ path. ok "";
  parent = λ path. path;
  can_write = λ path. true;
}

abbrev plain : Settings
plain = record settings {
  api_token_records = raw_records;
  splunk_hec_url = "";
  teams_enabled = false;
}

validate_runtime-IsSafe_example : IsSafe files plain "worker"
unfolding validate_runtime parse_token_records exists select
validate_runtime-IsSafe_example = validate_runtime-IsSafe files plain "worker" refl

abbrev answer_fields : Fields
answer_fields = field "verdict" (str "no_finding") (
    field "severity" (str "low") (
      field "summary" (str "nothing")
        (field "rationale" (list (element (str "quiet") no_items)) no_fields)))

-- The events of a session, by their texts.
abbrev event_of_text : String → Option Value
event_of_text text =
    if text == "accepted"
    then some (
        dict (
          field "type" (str "response")
            (field "command" (str "prompt") (field "success" (bool true) no_fields))))
    else if text == "update"
    then some (
        dict (
          field "type" (str "message_update") (
            field "assistantMessageEvent"
              (dict (field "type" (str "text_delta") (field "delta" (str "{}") no_fields)))
              no_fields)))
    else if text == "settled"
    then some (dict (field "type" (str "agent_settled") no_fields))
    else if text == "{}"
    then some (dict answer_fields)
    else if text == "[]"
    then some (list no_items)
    else none

abbrev host : Lines → Host
host lines = record {
  version_run = printed "0.83.0";
  find_version = λ text. some text;
  prompt = λ prompt. started (record { lines = lines; stderr = some "" });
  loads = event_of_text;
  repr = λ v. "";
  message = λ e. "";
}

abbrev good_lines : Lines
good_lines = line 8 "accepted" (line 6 "update" (line 7 "settled" ended))

abbrev reviewed : PiResult
reviewed = record {
  decision = record {
    verdict = "no_finding";
    severity = "low";
    summary = "nothing";
    rationale = "quiet" ∷ [];
    recommended_actions = [];
    evidence_ids = [];
    finding_key = "";
  };
  model = record { provider = "p"; model = "m"; pi_version = "0.83.0" };
}

review-IsDecision_example : version (host good_lines) ≡ ok "0.83.0"
unfolding review rpc_prompt run_session rpc_loop on_line version checked_version same_version
    has_prefix model_validate exists clip
review-IsDecision_example = (review-IsDecision (host good_lines) settings "prompt" reviewed refl).0

rpc_prompt-transcript_example : is_accepted (host good_lines) good_lines ≡ true
unfolding rpc_prompt run_session rpc_loop on_line is_text get
rpc_prompt-transcript_example =
    (rpc_prompt-transcript (host good_lines) settings "prompt" "{}"
      (record { lines = good_lines; stderr = some "" }) refl refl).1

abbrev sqlite : Sqlite
sqlite = record {
  copy = λ source. source;
  integrity = λ contents. some "ok";
  revision = λ contents. some "0001_clean_v1";
  sha256 = λ contents. "abc";
  name = λ path. path;
}

abbrev disk : Disk
disk = record { files = λ path. none; modes = λ path. 420 }

restore_database-Restores_example :
    Restores sqlite "b" "c" "d" disk (restore_database sqlite "b" "c" "d" disk)
restore_database-Restores_example = restore_database-Restores sqlite "b" "c" "d" disk

restore_database-backup_database_example :
    (restore_database sqlite "b"
        (checksum_path "b")
        "d"
        (backup_database sqlite "rows" "b" disk).1).1.files
      "d"
    ≡ some "rows"
unfolding backup_database check_copy write_checksum is_space
restore_database-backup_database_example =
    (restore_database-backup_database sqlite "rows" "b" "d" disk refl refl refl refl refl).1
