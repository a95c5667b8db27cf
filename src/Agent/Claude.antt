-- ===== src/Agent/Claude.antt =====
-- The claude backend: daemon/pkg/agent/claude.go. A message carries what the JSON decoder makes of its
-- parts, `none` where that fails.
pub mod Runs
pub mod Foreground
pub mod Tests
use meowth.Prelude.{
  ℕ, Bool, true, false, not, ◌&&◌, ◌||◌, List, [], ◌∷◌, ◌++◌, Option, none, some, String, str_eq,
  if◌then◌else◌, Bytes, codes, bytes_eq, is_blank, ℤ, is_positive,
}
use meowth.Pump.{AgentMessage, TokenUsage}
use meowth.Agent.Json.{
  Json, bool, string, array, object, Items, nil, cons, Fields, end, get, replace,
}
use meowth.Agent.Arguments.{resolve_session_id}
use meowth.Agent.Messages.{
  text_message, thinking_message, tool_use, tool_result, status_message, log_message, Usage,
  add_usage, FinalStatus, completed, failed, timeout, aborted, ContextState, live,
  deadline_exceeded, cancelled, Outcome, with_tail,
}

-- A block's JSON content as its text and its value, which is `none` where it does not decode.
pub data Block : Type 0 where
  text thinking : Bytes → Block
  -- the tool, the call, and the input where it decodes
  tool_use_block : Bytes → Bytes → Option Bytes → Block
  tool_result_block : Bytes → Option (Bytes × Option Json) → Block
  other_block : Block

pub record AssistantContent : Type 0 where
  pub model : String
  pub blocks : List Block
  pub usage : Option TokenUsage

pub record ResultFields : Type 0 where
  pub session_id : Bytes
  pub result_text : Bytes
  pub is_error : Bool
  pub model : String
  pub usage : Option TokenUsage
  pub model_usage : List (String × TokenUsage)

pub data ClaudeMessage : Type 0 where
  assistant : Option AssistantContent → ClaudeMessage
  user : Option (List Block) → ClaudeMessage
  system : Bytes → ClaudeMessage
  result : ResultFields → ClaudeMessage
  -- the level and the message
  log : Option (Bytes × Bytes) → ClaudeMessage
  -- the request's id, and its input, which is `none` where it is not an object; the request itself is
  -- `none` where it does not decode
  control_request : Bytes → Option (Option Fields) → ClaudeMessage
  other : ClaudeMessage

-- The variables of `Execute`'s loop, and the control responses written to the child.
pub record ClaudeState : Type 0 where
  pub output : Bytes
  pub session_id : Bytes
  pub final_status : FinalStatus
  pub final_error : Bytes
  pub saw_async_launch : Bool
  pub usage : Usage
  pub stdin_closed : Bool
  pub responses : List (Bytes × Fields)

abbrev pub initial : ClaudeState
initial = record {
  output = [];
  session_id = [];
  final_status = completed;
  final_error = [];
  saw_async_launch = false;
  usage = [];
  stdin_closed = false;
  responses = [];
}

is_async : Option Json → Bool
is_async none = false
is_async (some (string s)) = bytes_eq s (codes "async_launched")
is_async (some v) = false

-- `claudeMapHasAsyncLaunchStatus`
unfoldable pub map_has_async_launch_status : Fields → Bool
unfolding is_async
map_has_async_launch_status fs = is_async (get "status" fs)

item_has : Json → Bool
item_has (object fs) = map_has_async_launch_status fs
item_has v = false

-- `claudeArrayHasAsyncLaunchStatus`
unfoldable pub array_has_async_launch_status : Items → Bool
unfolding item_has
array_has_async_launch_status nil = false
array_has_async_launch_status (cons v vs) = item_has v || array_has_async_launch_status vs

content_has : Option Json → Bool
content_has none = false
content_has (some (array vs)) = array_has_async_launch_status vs
content_has (some v) = false

-- `claudeToolResultHasAsyncLaunch`
unfoldable pub tool_result_has_async_launch : Option Json → Bool
unfolding content_has
tool_result_has_async_launch none = false
tool_result_has_async_launch (some (object fs)) =
    map_has_async_launch_status fs || content_has (get "content" fs)
tool_result_has_async_launch (some (array vs)) = array_has_async_launch_status vs
tool_result_has_async_launch (some v) = false

-- The loop of `handleAssistant` over the blocks: the messages and the text to append.
unfoldable pub assistant_blocks : List Block → List AgentMessage × Bytes
assistant_blocks [] = ([], [])
assistant_blocks (text [] ∷ bs) = assistant_blocks bs
assistant_blocks (text (c ∷ t) ∷ bs) =
    let (ms, out) = assistant_blocks bs in (text_message (c ∷ t) ∷ ms, (c ∷ t) ++ out)
assistant_blocks (thinking [] ∷ bs) = assistant_blocks bs
assistant_blocks (thinking (c ∷ t) ∷ bs) =
    let (ms, out) = assistant_blocks bs in (thinking_message (c ∷ t) ∷ ms, out)
assistant_blocks (tool_use_block tool call input ∷ bs) =
    let (ms, out) = assistant_blocks bs in (tool_use tool call input ∷ ms, out)
assistant_blocks (tool_result_block call content ∷ bs) = assistant_blocks bs
assistant_blocks (other_block ∷ bs) = assistant_blocks bs

assistant_usage : String → Option TokenUsage → Usage → Usage
assistant_usage model none usage = usage
assistant_usage model (some u) usage = if str_eq model "" then usage else add_usage model u usage

-- The loop of `handleUser`: the messages, and whether one launched a task in the background.
unfoldable pub user_blocks : List Block → List AgentMessage × Bool
user_blocks [] = ([], false)
user_blocks (tool_result_block call none ∷ bs) =
    let (ms, saw) = user_blocks bs in (tool_result [] call [] ∷ ms, saw)
user_blocks (tool_result_block call (some (raw, value)) ∷ bs) =
    let (ms, saw) = user_blocks bs in
    (tool_result [] call raw ∷ ms, tool_result_has_async_launch value || saw)
user_blocks (text t ∷ bs) = user_blocks bs
user_blocks (thinking t ∷ bs) = user_blocks bs
user_blocks (tool_use_block tool call input ∷ bs) = user_blocks bs
user_blocks (other_block ∷ bs) = user_blocks bs

unfoldable pub is_true : Option Json → Bool
is_true (some (bool b)) = b
is_true (some v) = false
is_true none = false

-- `forceClaudeToolInputForeground`, the input that it leaves.
unfoldable pub force_foreground : Fields → Fields
unfolding is_true
force_foreground input =
    if is_true (get "run_in_background" input)
    then replace "run_in_background" (bool false) input
    else input

or_end : Option Fields → Fields
or_end none = end
or_end (some fs) = fs

-- `handleControlRequest`: every request that decodes is allowed, as long as stdin is open.
unfoldable pub handle_control_request : Bytes → Option (Option Fields) → ClaudeState → ClaudeState
unfolding or_end
handle_control_request id none st = st
handle_control_request id (some input) st =
    if st.stdin_closed
    then st
    else record st { responses = st.responses ++ (id, force_foreground (or_end input)) ∷ [] }

-- `claudeUsageHasTokens`
unfoldable pub has_tokens : TokenUsage → Bool
has_tokens u =
    is_positive u.input_tokens
    || is_positive u.output_tokens
    || is_positive u.cache_read_tokens
    || is_positive u.cache_write_tokens

counted : List (String × TokenUsage) → Usage
counted [] = []
counted ((model, u) ∷ us) =
    let rest = counted us in
    if not (str_eq model "") && has_tokens u then (model, u) ∷ rest else rest

fallback_usage : String → Option TokenUsage → Usage
fallback_usage model none = []
fallback_usage model (some u) =
    if not (str_eq model "") && has_tokens u then (model, u) ∷ [] else []

first_usage : Usage → Usage → Usage
first_usage [] fallback = fallback
first_usage (u ∷ us) fallback = u ∷ us

-- `claudeResultUsage`; no entry stands for nil.
unfoldable pub claude_result_usage : ResultFields → String → Usage
unfolding counted fallback_usage first_usage
claude_result_usage r fallback_model =
    first_usage (counted r.model_usage)
      (fallback_usage (if str_eq r.model "" then fallback_model else r.model) r.usage)

on_result : String → ResultFields → ClaudeState → ClaudeState
on_result model r st = record st {
  session_id = r.session_id;
  output = if is_blank r.result_text then st.output else r.result_text;
  usage = first_usage (claude_result_usage r model) st.usage;
  final_status = if r.is_error then failed else st.final_status;
  final_error = if r.is_error then r.result_text else st.final_error;
  stdin_closed = true;
}

-- One line of the child; `model` is the model of the options.
unfoldable pub on_claude_message :
    String → ClaudeMessage → ClaudeState → List AgentMessage × ClaudeState
unfolding assistant_usage on_result first_usage
on_claude_message model (assistant none) st = ([], st)
on_claude_message model (assistant (some c)) st =
    let (ms, out) = assistant_blocks c.blocks in
    (ms, record st { output = st.output ++ out; usage = assistant_usage c.model c.usage st.usage })
on_claude_message model (user none) st = ([], st)
on_claude_message model (user (some bs)) st =
    let (ms, saw) = user_blocks bs in
    (ms, record st { saw_async_launch = saw || st.saw_async_launch })
on_claude_message model (system id) st =
    let session = if is_blank id then st.session_id else id in
    (status_message (codes "running") session ∷ [], record st { session_id = session })
on_claude_message model (result r) st = ([], on_result model r st)
on_claude_message model (log none) st = ([], st)
on_claude_message model (log (some (level, m))) st = (log_message level m ∷ [], st)
on_claude_message model (control_request id input) st = ([], handle_control_request id input st)
on_claude_message model other st = ([], st)

unfoldable pub run_claude :
    String → List ClaudeMessage → ClaudeState → List AgentMessage × ClaudeState
run_claude model [] st = ([], st)
run_claude model (m ∷ ms) st =
    let (sent, st') = on_claude_message model m st in
    let (rest, last) = run_claude model ms st' in (sent ++ rest, last)

-- What the end of the process meets: the context, the time limit as a text, the errors of the write
-- of the prompt and of the wait, the tail of stderr, and the session to resume.
pub record ClaudeEnd : Type 0 where
  pub context : ContextState
  pub timeout_text : Bytes
  pub write_error : Option Bytes
  pub exit_error : Option Bytes
  pub stderr_tail : Bytes
  pub resume_session_id : Bytes

exited : Option Bytes → FinalStatus × Bytes → FinalStatus × Bytes
exited (some e) (completed, x) = (failed, codes "claude exited with error: " ++ e)
exited (some e) (s, x) = (s, x)
exited none v = v

unwritten : Option Bytes → Option Bytes → Bytes → FinalStatus × Bytes → FinalStatus × Bytes
unfolding exited
unwritten (some w) exit [] (completed, x) = (failed, codes "write claude input: " ++ w)
unwritten (some w) exit id v = exited exit v
unwritten none exit id v = exited exit v

ended_by : ClaudeEnd → ContextState → ClaudeState → FinalStatus × Bytes
unfolding unwritten
ended_by p deadline_exceeded st = (timeout, codes "claude timed out after " ++ p.timeout_text)
ended_by p cancelled st = (aborted, codes "execution cancelled")
ended_by p live st =
    unwritten p.write_error p.exit_error st.session_id (st.final_status, st.final_error)

launched : Bool → FinalStatus × Bytes → FinalStatus × Bytes
launched true (completed, x) = (
  failed,
  codes
      "claude launched an async background task; Multica-managed runs require foreground execution",
)
launched true (s, x) = (s, x)
launched false v = v

is_failed : FinalStatus → Bool
is_failed failed = true
is_failed s = false

-- The end of `Execute`'s goroutine.
unfoldable pub finish_claude : ClaudeEnd → ClaudeState → Outcome
unfolding ended_by launched is_failed
finish_claude p st =
    let (status, e) = launched st.saw_async_launch (ended_by p p.context st) in
    record {
      status = status;
      output = st.output;
      error = with_tail (codes "claude") p.stderr_tail e;
      session_id = resolve_session_id p.resume_session_id st.session_id (is_failed status);
      usage = st.usage;
    }
