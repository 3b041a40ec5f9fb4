-- ===== src/Lib.antt =====
-- Sprinter, a service that reviews the results of security detections with the Pi model. An API
-- process (src/sprinter/api.py) takes review jobs and lifecycle events of Teams, a worker process
-- (src/sprinter/worker.py) claims the jobs, asks the model and sends what is in the outbox. Both share
-- one SQLite database, and their code is the container of src/sprinter/engine.py.
--
-- Which file models which part:
--   Json, Errors, Dynamic, Models  JSON values and dumps/loads of src/sprinter/db.py, exceptions, what
--                                  Python does with a value of unknown type, the rows of
--                                  src/sprinter/models.py
--   Config                         src/sprinter/config.py: Settings and its lists; its children Tokens
--                                  (token records, make_token_verifier, verify_token) and Runtime
--                                  (read_secret, validate_runtime)
--   Schemas                        src/sprinter/schemas.py: ModelDecision, and in Requests the requests
--                                  of the API, as functions from JSON values to records
--   Models.Table                   the SQL statements on one table: select, update, delete, insert,
--                                  order by, as functions on the list of its rows
--   Jobs, Completion, Delivery, Installations, Retention, Health
--                                  the methods of Database in src/sprinter/db.py, under their names
--   Operations                     one constructor for each method that changes the database, `apply`
--                                  and `run` for histories of them
--   Auth, Redaction                src/sprinter/auth.py, and `redact` of src/sprinter/engine.py
--   Cards, Teams                   src/sprinter/teams/cards.py, and handle_lifecycle and
--                                  validate_activity (Tokens) of src/sprinter/teams/gateway.py
--   Clients                        src/sprinter/integrations: the Splunk, ADX and Confluence clients,
--                                  their regular expressions written out as readers (Patterns)
--   Pi                             src/sprinter/pi_gateway.py: in Rpc the loop over the lines of the
--                                  process and version, in Reviews _extract_json, review and probe
--   Api                            src/sprinter/api.py: BodyLimit (the middleware), the exception
--                                  handlers and the guard, Handlers and Tools, Views (job_view)
--   Backup                         src/sprinter/backup.py and src/sprinter/restore.py, on a disk that
--                                  gives each path its contents and mode
--   Seer                           scripts/submit_seer_run.py
--   Engine                         the container: audit, submit_review, notifications; its children
--                                  Evidence, FindingKey, Process (process_next_job) and Flush
--                                  (flush_outbox)
--   Worker                         the body of the loop of src/sprinter/worker.py
--   Prelude                        names of the libraries, Boolean tests, lists and texts
--   Examples                       tests, and the theorems at concrete inputs
--
-- Representation. The database is the record `Models.Db` of its tables, each a list of rows in the
-- order of insertion. A method is a function of what the clock and uuid4 give (`Models.Draws`, the k-th
-- reading within a call), its arguments and the database, and gives its answer and the database that
-- it commits; one that raises gives an `Errors.Result`. Where a method reads before its transaction
-- begins (create_job, claim_job) it takes the database as it was seen and as the write finds it, so
-- that commits of the other process may lie between; the job that a claim answers is the copy that was
-- seen, with the values of the claim. `process_next_job`, `flush_outbox` and a round of the worker are
-- sequences of such calls, with no commit of another process between them.
-- An instant is a number of microseconds since datetime.min, a monotonic time a number of
-- microseconds. A JSON column is the value that its text denotes, with its keys sorted. A text is its
-- list of characters.
--
-- What is not in the repository is an argument: how the database compares stored instants (`before` of
-- Retention), what the driver gives for a stored instant (`load` of Health), scrypt (`digest` of
-- Config.Tokens, `verify` of Auth), the file system (`Files`), the tables of Unicode (`lower`,
-- `title_case`, `is_word`), repr of a list or a dict, `json.loads` of a text (`loads` of the hosts),
-- SHA-256, what pydantic takes for an int (`as_int`), SQLite's copy and checks (`Backup.Sqlite`), and
-- the answers of Splunk, ADX, Confluence, pySigma, Teams and the Pi process (`Engine.Services`, and a
-- record `Host` in each client, in Pi.Rpc and in Seer). The engine takes its clients by
-- `Engine.Services`, as the container does.
--
-- Fuel: `decimal` writes a number n with n + 1 steps, each of which writes a digit, and a number has
-- no more digits than that. Every other function recurs on its data.
--
-- Not modelled: the creation of the database and its migrations, logging, the set-up of FastAPI and
-- /livez, the start of the worker and the wait between its rounds, how pydantic reads the environment
-- into the settings, send_card and the set-up of the Teams SDK, the arguments and the environment of
-- the Pi process and lines of it that are no UTF-8, errors of the file system in the middle of a write,
-- and the command lines of backup, restore and hash_token.py. They are input and output, or are left
-- for an extension.
pub mod Api
pub mod Auth
pub mod Backup
pub mod Cards
pub mod Clients
pub mod Completion
pub mod Config
pub mod Delivery
pub mod Dynamic
pub mod Engine
pub mod Errors
pub mod Examples
pub mod Health
pub mod Installations
pub mod Jobs
pub mod Json
pub mod Models
pub mod Operations
pub mod Pi
pub mod Prelude
pub mod Redaction
pub mod Retention
pub mod Schemas
pub mod Seer
pub mod Teams
pub mod Worker
