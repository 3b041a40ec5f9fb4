-- ===== src/Pi/Rpc.antt =====
-- The processes of src/sprinter/pi_gateway.py: `_rpc_prompt` and `version`.
--
-- The process is not in the repository: a `Session` is what it sends for one prompt, line by line,
-- until it ends, is silent until the deadline, or sends a line beyond the limit of the reader.
-- `json.loads` of a text is the argument `loads`, `none` where it raises JSONDecodeError.
use Prim.Native.String.{◌++◌ as ◌⧺◌}
use sprinter_oss.Prelude.{
  ℕ, ◌+◌, String, Bool, true, false, ◌&&◌, Option, none, some, ◌==◌, string_eq, ltb, if◌then◌else◌,
  clip, strip,
}
use sprinter_oss.Json.{Value, Fields, get_truthy, value_eq}
use sprinter_oss.Errors.{
  Exception, Result, ok, err, ◌>>=◌, value_error, os_error, pi_unavailable, pi_protocol_error,
}
use sprinter_oss.Config.{Settings}
use sprinter_oss.Dynamic.{as_dict, or_empty, get_or_null, text_of, is_text}

-- The lines that a process sends, each with its number of bytes, which are taken to be UTF-8.
pub data Lines : Type 0 where
  line : ℕ → String → Lines → Lines
  ended stalled overrun : Lines

-- A session: the lines, and what is then read from stderr, `none` where that takes too long.
pub record Session : Type 0 where
  pub lines : Lines
  pub stderr : Option String

-- A process that could be started, or not, or that ended before it had read the prompt, so that
-- `process.stdin.drain()` raises the OSError of the text.
pub data Started : Type 0 where
  unstarted unread : String → Started
  started : Session → Started

-- `pi --version`.
pub data VersionRun : Type 0 where
  not_executable : String → VersionRun
  timed_out : VersionRun
  failed_run : String → VersionRun
  printed : String → VersionRun

-- What stands outside of the gateway; `find_version` is the search for the version's expression.
pub record Host : Type 0 where
  pub version_run : VersionRun
  pub find_version : String → Option String
  pub prompt : String → Started
  pub loads : String → Option Value
  pub repr : Value → String
  pub message : Exception → String

-- `output`, `output_bytes` and `accepted`.
pub record Progress : Type 0 where
  pub output : String
  pub output_bytes : ℕ
  pub accepted : Bool

abbrev pub no_progress : Progress
no_progress = record { output = ""; output_bytes = 0; accepted = false }

-- `event.get("type") == "response" and event.get("command") == "prompt"`.
unfoldable pub is_response : Fields → Bool
unfolding is_text
is_response event = is_text "type" "response" event && is_text "command" "prompt" event

unfoldable pub is_settled : Fields → Bool
unfolding is_text
is_settled event = is_text "type" "agent_settled" event

unfoldable pub succeeded : Fields → Bool
unfolding get_truthy
succeeded event = elim (get_truthy "success" event) [ none ↦ false | some v ↦ true ]

-- The first test of the loop's body: is the prompt accepted?
unfoldable pub answered : (Value → String) → Fields → Progress → Result Progress
unfolding is_response succeeded text_of
answered repr event p =
    if is_response event
    then (if succeeded event
        then ok (record p { accepted = true })
        else err (pi_unavailable (text_of repr "error" "Pi rejected the prompt" event)))
    else ok p

-- `event.get("assistantMessageEvent") or {}`.
unfoldable pub delta_of : Fields → Result Fields
unfolding or_empty get_or_null
delta_of event = or_empty (get_or_null "assistantMessageEvent" event)

-- The text that an event adds.
unfoldable pub delta_text : (Value → String) → Fields → String
unfolding is_text text_of
delta_text repr delta =
    if is_text "type" "text_delta" delta then text_of repr "delta" "" delta else ""

-- The second test: the text of an update.
unfoldable pub updated : (Value → String) → Fields → Progress → Result Progress
unfolding is_text delta_of delta_text
updated repr event p =
    if is_text "type" "message_update" event
    then (do delta ← delta_of event; ok (record p { output = p.output ⧺ delta_text repr delta }))
    else ok p

-- The loop's body on an event.
unfoldable pub on_event : (Value → String) → Fields → Progress → Result Progress
unfolding answered updated
on_event repr event p = do p1 ← answered repr event p; updated repr event p1

-- The event of a line: `json.loads(line)`, whose method `get` is called.
unfoldable pub event_of : (String → Option Value) → String → Result Fields
unfolding as_dict
event_of loads text = elim (loads text) [
  | none ↦ err (pi_protocol_error "Pi emitted invalid JSONL")
  | some v ↦ as_dict v
]

-- One line: the progress after it, and whether the agent has settled.
unfoldable pub on_line : Host → ℕ → ℕ → String → Progress → Result (Progress × Bool)
unfolding event_of on_event is_settled
on_line host limit bytes text p =
    if ltb limit (p.output_bytes + bytes)
    then err (pi_protocol_error "Pi output exceeded the configured limit")
    else (do
      event ← event_of host.loads text
      p1 ← on_event host.repr event (record p { output_bytes = p.output_bytes + bytes })
      ok (p1, is_settled event))

-- `while True`.
unfoldable pub rpc_loop : Host → ℕ → Lines → Progress → Result Progress
unfolding on_line
rpc_loop host limit ended p = ok p
rpc_loop host limit stalled p = err (pi_unavailable "Pi request timed out")
rpc_loop host limit overrun p =
    err (value_error "Separator is found, but chunk is longer than limit")
rpc_loop host limit (line bytes text rest) p = elim (on_line host limit bytes text p) [
  | err e ↦ err e
  | ok (p1, settled) ↦ elim settled [ true ↦ ok p1 | false ↦ rpc_loop host limit rest p1 ]
]

-- The tests after the loop.
unfoldable pub finished : Option String → Progress → Result String
unfolding strip
finished stderr p =
    if p.accepted
    then (if strip p.output == ""
        then err (pi_protocol_error "Pi returned no assistant text")
        else ok p.output)
    else elim stderr [
      | none ↦ err (pi_unavailable "Pi request timed out")
      | some text ↦
          if clip 2000 text == ""
          then err (pi_unavailable "Pi exited before accepting the prompt")
          else err (pi_unavailable (clip 2000 text))
    ]

unfoldable pub run_session : Host → ℕ → Session → Result String
unfolding rpc_loop finished
run_session host limit session = do
  p ← rpc_loop host limit session.lines no_progress
  finished session.stderr p

-- `_rpc_prompt`.
unfoldable pub rpc_prompt : Host → Settings → String → Result String
unfolding run_session
rpc_prompt host settings prompt = elim (host.prompt prompt) [
  | unstarted text ↦ err (pi_unavailable ("Pi is not executable: " ⧺ text))
  | unread text ↦ err (os_error text)
  | started session ↦ run_session host settings.pi_max_output_bytes session
]

-- `version`.
unfoldable pub version : Host → Result String
version host = elim host.version_run [
  | not_executable text ↦ err (pi_unavailable ("Pi is not executable: " ⧺ text))
  | timed_out ↦ err (pi_unavailable "Pi version check timed out")
  | failed_run text ↦
      if clip 1000 text == ""
      then err (pi_unavailable "Pi version check failed")
      else err (pi_unavailable (clip 1000 text))
  | printed text ↦ elim (host.find_version text) [
    | none ↦ err (pi_protocol_error "Pi returned an unrecognised version")
    | some found ↦ ok found
  ]
]
