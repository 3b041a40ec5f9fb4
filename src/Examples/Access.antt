-- ===== src/Examples/Access.antt =====
-- The rate limiter, the scopes, the redaction, the readiness and the worker at concrete inputs.
use sprinter_oss.Prelude.{ltb, arith, ◌≡◌, refl, true, none, some, [], ◌∷◌, ◌==◌, string_eq}
use sprinter_oss.Json.{null, str, dict, no_fields, field, dumps}
use sprinter_oss.Models.{Db, empty_db, WorkerHealth}
use sprinter_oss.Config.Tokens.{TokenRecord}
use sprinter_oss.Auth.{Request}
use sprinter_oss.Auth.Window.{serve, accepted_times, serve-accepted_times}
use sprinter_oss.Redaction.{redact, IsRedacted}
use sprinter_oss.Redaction.Laws.{dumps-redact-IsRedacted}
use sprinter_oss.Errors.{err, runtime_error}
use sprinter_oss.Worker.{Loop, Round, round}
use sprinter_oss.Worker.Unready.{round_unready}
use sprinter_oss.Examples.{settings, draws, queue}
use sprinter_oss.Examples.Reviews.{services, moments}

serve-accepted_times_example : (serve 1 (9 ∷ 5 ∷ [])).1 ≡ accepted_times 1 (9 ∷ 5 ∷ [])
serve-accepted_times_example = serve-accepted_times 1 (9 ∷ 5 ∷ []) ((omega arith, tt), (tt, tt))

abbrev operator : TokenRecord
operator = record { name = "op"; verifier = "v"; scopes = "review" ∷ [] }

abbrev call : Request
call = record {
  credentials = some (record { scheme = "bearer"; credentials = "v" });
  client = none;
}

dumps-redact-IsRedacted_example :
    IsRedacted
      (λ k. k == "token")
      (dumps (redact (λ k. k == "token") (dict (field "token" (str "t") no_fields))))
dumps-redact-IsRedacted_example =
    dumps-redact-IsRedacted (λ k. k == "token") (dict (field "token" (str "t") no_fields))

abbrev health : WorkerHealth
health = record {
  heartbeat_at = 500000000;
  pi_ready = true;
  pi_checked_at = none;
  pi_error = "";
  details_json = null;
}

abbrev reported : Db
reported = record empty_db { worker_health = some health }

abbrev failing : Round
failing = record {
  now = 9;
  probe = err (runtime_error "pi is missing");
  heartbeat = draws 1 "h";
  job = moments;
  flush_now = 9;
  flush = λ k. draws k "f";
  purge_now = 9;
}

abbrev started : Loop
started = record { next_probe = 0; next_purge = 10; pi_ready = true; pi_error = "" }

round_unready_example :
    (round (λ a b. ltb a b) services settings true failing started queue).1.jobs ≡ queue.jobs
round_unready_example =
    (round_unready (λ a b. ltb a b) services settings true failing started queue
      (runtime_error "pi is missing") (omega arith) (omega arith) refl).1
