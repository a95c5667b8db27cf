-- ===== src/Agent/Copilot.antt =====
-- The copilot backend: daemon/pkg/agent/copilot.go. An event carries what the JSON decoder makes of
-- its data, `none` where that fails.
pub mod Runs
pub mod Tests
use meowth.Prelude.{
  ℕ, zero, suc, Bool, true, false, not, ◌&&◌, List, [], ◌∷◌, ◌++◌, Option, none, some, String,
  str_eq, if◌then◌else◌, Bytes, codes, trim_space, has_suffix, trim_suffix, contains_text, is_blank,
  ℤ, pos, negsuc, is_positive,
}
use meowth.Pump.{AgentMessage}
use meowth.Agent.Messages.{
  text_message, thinking_message, tool_use, tool_result, status_message, log_message, Usage,
  no_tokens, add_usage, FinalStatus, completed, failed, timeout, aborted, ContextState, live,
  deadline_exceeded, cancelled, Outcome, decimal_ℤ, with_tail,
}

pub record SessionStart : Type 0 where
  pub session_id : Bytes
  pub selected_model : String

pub record ToolRequest : Type 0 where
  pub tool_call_id : Bytes
  pub name : Bytes
  -- the decoded arguments, where they are an object
  pub arguments : Option Bytes

pub record AssistantMessage : Type 0 where
  pub content : Bytes
  pub tool_requests : List ToolRequest
  pub output_tokens : ℤ
  pub reasoning_text : Bytes

pub record Reasoning : Type 0 where
  pub content : Bytes
  pub delta_content : Bytes

pub record ToolExecComplete : Type 0 where
  pub tool_call_id : Bytes
  pub model : String
  pub success : Bool
  -- the contents of the result and the message of the error
  pub result : Option Bytes
  pub error : Option Bytes

pub data CopilotEvent : Type 0 where
  session_start : Option SessionStart → CopilotEvent
  message_delta : Option Bytes → CopilotEvent
  assistant_message : Option AssistantMessage → CopilotEvent
  -- assistant.reasoning and assistant.reasoning_delta
  reasoning : Option Reasoning → CopilotEvent
  tool_execution_complete : Option ToolExecComplete → CopilotEvent
  turn_start : CopilotEvent
  session_error session_warning : Option Bytes → CopilotEvent
  -- the session id and the exit code of the process
  result : Bytes → ℤ → CopilotEvent
  unknown : CopilotEvent

pub record CopilotEventState : Type 0 where
  pub output : Bytes
  pub session_id : Bytes
  pub active_model : String
  pub final_status : FinalStatus
  pub final_error : Bytes
  pub usage : Usage

unfoldable pub new_copilot_event_state : String → CopilotEventState
new_copilot_event_state seed = record {
  output = [];
  session_id = [];
  active_model = seed;
  final_status = completed;
  final_error = [];
  usage = [];
}

abbrev pub two_newlines : Bytes
two_newlines = 10 ∷ 10 ∷ []

-- What stands between the turns before and a new one.
unfoldable pub separator : Bytes → Bytes
separator [] = []
separator (c ∷ s) = if has_suffix (c ∷ s) two_newlines then [] else two_newlines

-- The output of a turn's deltas is replaced by its content.
unfoldable pub with_turn : Bytes → Bytes → Bytes
unfolding separator
with_turn output [] = output
with_turn output (c ∷ content) =
    let trimmed = trim_suffix output (c ∷ content) in trimmed ++ separator trimmed ++ c ∷ content

requested : List ToolRequest → List AgentMessage
requested [] = []
requested (t ∷ ts) = tool_use t.name t.tool_call_id t.arguments ∷ requested ts

thought : Bytes → List AgentMessage
thought [] = []
thought (c ∷ s) = thinking_message (c ∷ s) ∷ []

unfoldable pub on_assistant_message :
    AssistantMessage → CopilotEventState → List AgentMessage × CopilotEventState
unfolding requested thought with_turn
on_assistant_message m st = (
  thought m.reasoning_text ++ requested m.tool_requests,
  record st {
    output = with_turn st.output m.content;
    usage =
        if is_positive m.output_tokens
        then add_usage st.active_model (record no_tokens { output_tokens = m.output_tokens })
            st.usage
        else st.usage;
  },
)

or_empty : Option Bytes → Bytes
or_empty none = []
or_empty (some s) = s

error_content : Option Bytes → Option Bytes → Bytes
unfolding or_empty
error_content (some e) r = codes "Error: " ++ e
error_content none r = or_empty r

unfoldable pub tool_content : ToolExecComplete → Bytes
unfolding error_content or_empty
tool_content t = if t.success then or_empty t.result else error_content t.error t.result

unfoldable pub with_copilot_exit_code : Bytes → ℤ → Bytes
with_copilot_exit_code msg code =
    let exit_msg = codes "copilot exited with code " ++ decimal_ℤ code in
    let m = trim_space msg in
    if is_blank m
    then exit_msg
    else if contains_text m exit_msg
    then m
    else m ++ codes "; " ++ exit_msg

unfoldable pub is_zero : ℤ → Bool
is_zero (pos zero) = true
is_zero (pos (suc n)) = false
is_zero (negsuc n) = false

abbrev or_else : Bytes → Bytes → Bytes
or_else a b = if is_blank a then b else a

-- `handleCopilotEvent`: the messages to emit, and the new state.
unfoldable pub handle_copilot_event :
    CopilotEvent → CopilotEventState → List AgentMessage × CopilotEventState
unfolding on_assistant_message thought
handle_copilot_event (session_start none) st = ([], st)
handle_copilot_event (session_start (some s)) st = (
  [],
  record st {
    active_model = if str_eq s.selected_model "" then st.active_model else s.selected_model;
    session_id = or_else s.session_id st.session_id;
  },
)
handle_copilot_event (message_delta none) st = ([], st)
handle_copilot_event (message_delta (some [])) st = ([], st)
handle_copilot_event (message_delta (some (c ∷ d))) st =
    (text_message (c ∷ d) ∷ [], record st { output = st.output ++ c ∷ d })
handle_copilot_event (assistant_message none) st = ([], st)
handle_copilot_event (assistant_message (some m)) st = on_assistant_message m st
handle_copilot_event (reasoning none) st = ([], st)
handle_copilot_event (reasoning (some r)) st = (thought (or_else r.content r.delta_content), st)
handle_copilot_event (tool_execution_complete none) st = ([], st)
handle_copilot_event (tool_execution_complete (some t)) st = (
  tool_result [] t.tool_call_id (tool_content t) ∷ [],
  record st { active_model = if str_eq t.model "" then st.active_model else t.model },
)
handle_copilot_event turn_start st = (status_message (codes "running") [] ∷ [], st)
handle_copilot_event (session_error none) st = ([], st)
handle_copilot_event (session_error (some m)) st =
    (log_message (codes "error") m ∷ [], record st { final_status = failed; final_error = m })
handle_copilot_event (session_warning none) st = ([], st)
handle_copilot_event (session_warning (some m)) st = (log_message (codes "warn") m ∷ [], st)
handle_copilot_event (result id code) st =
    let st' = record st { session_id = or_else id st.session_id } in
    (
      [],
      if is_zero code then st' else record st' {
        final_status = failed;
        final_error = with_copilot_exit_code st.final_error code;
      },
    )
handle_copilot_event unknown st = ([], st)

-- The scanner's loop over the lines that decode.
unfoldable pub run_events :
    List CopilotEvent → CopilotEventState → List AgentMessage × CopilotEventState
run_events [] st = ([], st)
run_events (e ∷ es) st =
    let (ms, st') = handle_copilot_event e st in
    let (rest, end) = run_events es st' in (ms ++ rest, end)

-- What the end of the process meets: the context, the time limit as a text, the error of the wait,
-- and the tail of stderr.
pub record ProcessEnd : Type 0 where
  pub context : ContextState
  pub timeout_text : Bytes
  pub exit_error : Option Bytes
  pub stderr_tail : Bytes

exited : Option Bytes → CopilotEventState → CopilotEventState
exited none st = st
exited (some e) st = elim (st.final_status) [
  | completed ↦ record st {
    final_status = failed;
    final_error = codes "copilot exited with error: " ++ e;
  }
  | failed ↦ st
  | timeout ↦ st
  | aborted ↦ st
]

ended_by : ProcessEnd → ContextState → CopilotEventState → CopilotEventState
unfolding exited
ended_by p live st = exited p.exit_error st
ended_by p deadline_exceeded st = record st {
  final_status = timeout;
  final_error = codes "copilot timed out after " ++ p.timeout_text;
}
ended_by p cancelled st = record st {
  final_status = aborted;
  final_error = codes "execution cancelled";
}

-- The end of `Execute`'s goroutine.
unfoldable pub finish_copilot : ProcessEnd → CopilotEventState → Outcome
unfolding ended_by
finish_copilot p st =
    let end = ended_by p p.context st in
    record {
      status = end.final_status;
      output = end.output;
      error = with_tail (codes "copilot") p.stderr_tail end.final_error;
      session_id = end.session_id;
      usage = end.usage;
    }
