-- ===== src/Agent/Pi.antt =====
-- The pi backend: daemon/pkg/agent/pi.go. An event carries what the JSON decoder makes of it.
pub mod Markup
pub mod Chunks
pub mod Committed
pub mod Turns
pub mod Tests
use meowth.Prelude.{
  ℕ, zero, suc, ◌+◌, Bool, true, false, not, ◌&&◌, ◌||◌, List, [], ◌∷◌, ◌++◌, map, Option, none,
  some, String, str_eq, if◌then◌else◌, Bytes, codes, bytes_eq, trim_space, to_lower, is_blank,
}
use meowth.Pump.{AgentMessage, TokenUsage}
use meowth.Agent.Messages.{
  text_message, thinking_message, tool_use, tool_result, status_message, error_message, Usage,
  add_usage, FinalStatus, completed, failed, timeout, aborted, ContextState, live,
  deadline_exceeded, cancelled, Outcome,
}
use meowth.Agent.Pi.Markup.{drain_pi_text_buffer, flush_pi_text_buffer}
use meowth.Agent.Pi.Chunks.{emit_chunked_message_text}

pub record PiMessage : Type 0 where
  pub role : Bytes
  pub model : String
  pub usage : Option TokenUsage
  pub stop_reason : Bytes
  pub error_message : Bytes

-- A message of an event is `none` where it is missing or does not decode.
pub data PiStreamEvent : Type 0 where
  agent_start : PiStreamEvent
  message_start turn_end message_end : Option PiMessage → PiStreamEvent
  text_delta thinking_delta : Bytes → PiStreamEvent
  -- the call, the tool, and the arguments where they decode
  tool_execution_start : Bytes → Bytes → Option Bytes → PiStreamEvent
  -- the call and its decoded result
  tool_execution_end : Bytes → Bytes → PiStreamEvent
  auto_retry_start : PiStreamEvent
  auto_retry_end : Bool → Bytes → PiStreamEvent
  -- the decoded text of the error
  error : Bytes → PiStreamEvent
  other : PiStreamEvent

unfoldable pub is_assistant : PiMessage → Bool
is_assistant m = bytes_eq m.role (codes "assistant")

-- `isPiSuccessfulAssistantStopReason`
unfoldable pub is_successful_stop_reason : Bytes → Bool
is_successful_stop_reason reason =
    let r = to_lower (trim_space reason) in
    bytes_eq r (codes "stop")
    || bytes_eq r (codes "tooluse")
    || bytes_eq r (codes "tool_use")
    || bytes_eq r (codes "end")
    || bytes_eq r (codes "end_turn")

stop_reason_error : Bytes → Bytes → Bytes
stop_reason_error reason r =
    if bytes_eq r (codes "error")
    then codes "pi reported stopReason=error with no errorMessage payload"
    else if bytes_eq r (codes "aborted")
    then codes "pi reported stopReason=aborted"
    else if bytes_eq r (codes "length")
    then codes "pi reported stopReason=length (output token limit exceeded)"
    else if is_blank r
    then []
    else if is_successful_stop_reason r
    then []
    else codes "pi reported unexpected stopReason: " ++ reason

-- `piMessageErrorText`
unfoldable pub pi_message_error_text : PiMessage → Bytes
unfolding stop_reason_error
pi_message_error_text m =
    let msg = trim_space m.error_message in
    if is_blank msg
    then stop_reason_error m.stop_reason (to_lower (trim_space m.stop_reason))
    else msg

-- The variables of `Execute`'s loop.
pub record PiState : Type 0 where
  pub fatal_error : Bytes
  pub usage : Usage
  pub text_buffer : Bytes
  pub attempt_text : Bytes
  pub committed_output : Bytes
  pub stashed_error : Bytes
  pub in_flight : Bool
  pub has_successful_turn : Bool
  pub attempt_emitted : Bool
  pub attempt_usage_recorded : Bool
  pub retry_count : ℕ

abbrev pub initial : PiState
initial = record {
  fatal_error = [];
  usage = [];
  text_buffer = [];
  attempt_text = [];
  committed_output = [];
  stashed_error = [];
  in_flight = false;
  has_successful_turn = false;
  attempt_emitted = false;
  attempt_usage_recorded = false;
  retry_count = 0;
}

-- The model of the message, else that of the options, else "unknown".
unfoldable pub usage_model : String → String → String
usage_model options model =
    if str_eq model "" then (if str_eq options "" then "unknown" else options) else model

record_usage : String → PiMessage → Option TokenUsage → PiState → PiState
record_usage options m none st = st
record_usage options m (some u) st = if st.attempt_usage_recorded then st else record st {
  usage = add_usage (usage_model options m.model) u st.usage;
  attempt_usage_recorded = true;
}

-- `recordAssistantUsage`
unfoldable pub record_assistant_usage : String → PiMessage → PiState → PiState
unfolding record_usage
record_assistant_usage options m st =
    if is_assistant m then record_usage options m m.usage st else st

-- The text of the attempt is thrown away.
abbrev discard : PiState → PiState
discard st = record st { text_buffer = []; attempt_text = []; in_flight = false }

abbrev fail_attempt : Bytes → PiState → PiState
fail_attempt e st = record (discard st) { stashed_error = e }

-- A message of the assistant that stopped well: its text is committed, and sent, once.
unfoldable pub commit : PiState → List AgentMessage × PiState
commit st =
    let text = st.attempt_text ++ flush_pi_text_buffer st.text_buffer in
    let new = if st.attempt_emitted then [] else text in
    (
      map (λ t. text_message t) (emit_chunked_message_text new),
      record st {
        text_buffer = [];
        attempt_text = [];
        committed_output = st.committed_output ++ new;
        attempt_emitted = true;
        in_flight = false;
        stashed_error = [];
        has_successful_turn = true;
      },
    )

on_message_end : PiMessage → PiState → List AgentMessage × PiState
on_message_end m st =
    if not (is_blank (pi_message_error_text m))
    then ([], fail_attempt (pi_message_error_text m) st)
    else if not (is_assistant m)
    then ([], st)
    else if is_successful_stop_reason m.stop_reason
    then commit st
    else (
      [],
      fail_attempt
          (codes "pi assistant stopped without success (stopReason: " ++ m.stop_reason ++ codes ")")
          st,
    )

on_turn_end : PiMessage → PiState → PiState
on_turn_end m st =
    if is_assistant m && not (is_blank (pi_message_error_text m))
    then fail_attempt (pi_message_error_text m) st
    else st

on_message_start : PiMessage → PiState → PiState
on_message_start m st =
    if is_assistant m
    then record st {
      in_flight = true;
      attempt_emitted = false;
      attempt_usage_recorded = false;
      text_buffer = [];
      attempt_text = [];
    }
    else st

on_text : PiState → Bytes × Bytes → List AgentMessage × PiState
on_text st (emit, buffer) = (
  if is_blank emit then [] else status_message (codes "in_progress") [] ∷ [],
  record st { text_buffer = buffer; attempt_text = st.attempt_text ++ emit },
)

retries_exhausted : Bool → Bytes → PiState → PiState
retries_exhausted true e st = st
retries_exhausted false e st =
    if not (is_blank e)
    then record st { stashed_error = e }
    else if is_blank st.stashed_error
    then record st { stashed_error = codes "pi exhausted automatic retries" }
    else st

-- One event of the stream: what it sends, and the new state. `options` is the model of the options.
unfoldable pub on_pi_event : String → PiStreamEvent → PiState → List AgentMessage × PiState
unfolding on_message_end on_turn_end on_message_start on_text retries_exhausted
on_pi_event options agent_start st = (status_message (codes "running") [] ∷ [], st)
on_pi_event options (message_start none) st = ([], st)
on_pi_event options (message_start (some m)) st = ([], on_message_start m st)
on_pi_event options (text_delta d) st = on_text st (drain_pi_text_buffer st.text_buffer d)
on_pi_event options (thinking_delta []) st = ([], st)
on_pi_event options (thinking_delta (c ∷ d)) st = (thinking_message (c ∷ d) ∷ [], st)
on_pi_event options (tool_execution_start call tool args) st = (tool_use tool call args ∷ [], st)
on_pi_event options (tool_execution_end call output) st = (tool_result [] call output ∷ [], st)
on_pi_event options (turn_end none) st = ([], st)
on_pi_event options (turn_end (some m)) st =
    ([], on_turn_end m (record_assistant_usage options m st))
on_pi_event options (message_end none) st = ([], st)
on_pi_event options (message_end (some m)) st =
    on_message_end m (record_assistant_usage options m st)
on_pi_event options auto_retry_start st = (
  status_message (codes "retrying") [] ∷ [],
  record (discard st) {
    retry_count = st.retry_count + 1;
    attempt_emitted = false;
    attempt_usage_recorded = false;
  },
)
on_pi_event options (auto_retry_end success e) st = ([], retries_exhausted success e st)
on_pi_event options (error e) st = ([], record (discard st) { fatal_error = e })
on_pi_event options other st = ([], st)

unfoldable pub run_pi : String → List PiStreamEvent → PiState → List AgentMessage × PiState
run_pi options [] st = ([], st)
run_pi options (e ∷ es) st =
    let (ms, st') = on_pi_event options e st in
    let (rest, end) = run_pi options es st' in (ms ++ rest, end)

-- What the end of the process meets: the context, the time limit as a text, and the errors of the
-- reader and of the wait.
pub record PiEnd : Type 0 where
  pub context : ContextState
  pub timeout_text : Bytes
  pub read_error : Option Bytes
  pub wait_error : Option Bytes
  pub session_path : Bytes

abbrev fails : Bytes → List AgentMessage × FinalStatus × Bytes
fails e = (error_message e ∷ [], failed, e)

stream_end : PiState → List AgentMessage × FinalStatus × Bytes
stream_end st =
    if not (is_blank st.stashed_error)
    then fails st.stashed_error
    else if st.in_flight
    then fails (codes "pi stream ended while assistant turn was still in flight")
    else if not st.has_successful_turn
    then fails (codes "pi stream ended without successful turn completion")
    else ([], completed, [])

waited : Option Bytes → PiState → List AgentMessage × FinalStatus × Bytes
unfolding stream_end
waited (some e) st = fails (codes "pi exited with error: " ++ e)
waited none st = stream_end st

read : PiEnd → Option Bytes → PiState → List AgentMessage × FinalStatus × Bytes
unfolding waited
read p (some e) st = fails (codes "pi stdout read error: " ++ e)
read p none st = if is_blank st.fatal_error then waited p.wait_error st else fails st.fatal_error

verdict : PiEnd → ContextState → PiState → List AgentMessage × FinalStatus × Bytes
unfolding read
verdict p deadline_exceeded st = ([], timeout, codes "pi timed out after " ++ p.timeout_text)
verdict p cancelled st = ([], aborted, codes "execution cancelled")
verdict p live st = read p p.read_error st

-- The end of `Execute`'s goroutine: its last messages, and the result.
unfoldable pub finish_pi : PiEnd → PiState → List AgentMessage × Outcome
unfolding verdict
finish_pi p st =
    let (ms, status, e) = verdict p p.context st in
    (
      ms,
      record {
        status = status;
        output = st.committed_output;
        error = e;
        session_id = p.session_path;
        usage = st.usage;
      },
    )
