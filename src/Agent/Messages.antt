-- ===== src/Agent/Messages.antt =====
-- The messages, the usage and the outcome that every backend builds: daemon/pkg/agent/agent.go, and
-- the rules by which the backends end a run.
use meowth.Prelude.{
  List, [], ◌∷◌, Option, none, some, String, if◌then◌else◌, Bytes, codes, lookup, insert, ℤ, pos,
  negsuc, ◌+ℤ◌, is_blank, suc,
}
use meowth.Pump.{AgentMessage, TokenUsage}
use meowth.Agent.CommandLines.{decimal}
use meowth.Agent.StderrTail.{with_agent_stderr}

-- A message of a kind with every other field empty.
abbrev pub bare : Bytes → AgentMessage
bare kind = record {
  kind = kind;
  content = [];
  tool = [];
  call_id = [];
  input = none;
  output = [];
  status = [];
  level = [];
  session_id = [];
}

abbrev pub text_message : Bytes → AgentMessage
text_message t = record (bare (codes "text")) { content = t }

abbrev pub thinking_message : Bytes → AgentMessage
thinking_message t = record (bare (codes "thinking")) { content = t }

abbrev pub tool_use : Bytes → Bytes → Option Bytes → AgentMessage
tool_use tool call_id input = record (bare (codes "tool-use")) {
  tool = tool;
  call_id = call_id;
  input = input;
}

abbrev pub tool_result : Bytes → Bytes → Bytes → AgentMessage
tool_result tool call_id output = record (bare (codes "tool-result")) {
  tool = tool;
  call_id = call_id;
  output = output;
}

abbrev pub status_message : Bytes → Bytes → AgentMessage
status_message status session_id = record (bare (codes "status")) {
  status = status;
  session_id = session_id;
}

abbrev pub error_message : Bytes → AgentMessage
error_message t = record (bare (codes "error")) { content = t }

abbrev pub log_message : Bytes → Bytes → AgentMessage
log_message level t = record (bare (codes "log")) { level = level; content = t }

-- The map of a run's usage by model; its order is of no matter.
abbrev pub Usage : Type 0
Usage = List (String × TokenUsage)

abbrev pub no_tokens : TokenUsage
no_tokens = record {
  input_tokens = pos 0;
  output_tokens = pos 0;
  cache_read_tokens = pos 0;
  cache_write_tokens = pos 0;
}

abbrev pub add_tokens : TokenUsage → TokenUsage → TokenUsage
add_tokens u v = record {
  input_tokens = u.input_tokens +ℤ v.input_tokens;
  output_tokens = u.output_tokens +ℤ v.output_tokens;
  cache_read_tokens = u.cache_read_tokens +ℤ v.cache_read_tokens;
  cache_write_tokens = u.cache_write_tokens +ℤ v.cache_write_tokens;
}

or_none : Option TokenUsage → TokenUsage
or_none none = no_tokens
or_none (some u) = u

-- `usage[model]`
unfoldable pub usage_of : String → Usage → TokenUsage
unfolding or_none
usage_of model m = or_none (lookup model m)

-- `u := usage[model]; u += v; usage[model] = u`
unfoldable pub add_usage : String → TokenUsage → Usage → Usage
unfolding usage_of
add_usage model v m = insert model (add_tokens (usage_of model m) v) m

-- The values that `finalStatus` takes.
pub data FinalStatus : Type 0 where
  completed failed timeout aborted : FinalStatus

-- `runCtx.Err()` at the end of a run.
pub data ContextState : Type 0 where
  live deadline_exceeded cancelled : ContextState

-- agent.Result, less its duration; the session id of some backends is a path.
pub record Outcome : Type 0 where
  pub status : FinalStatus
  pub output : Bytes
  pub error : Bytes
  pub session_id : Bytes
  pub usage : Usage

-- `fmt.Sprintf("%d", n)`.
unfoldable pub decimal_ℤ : ℤ → Bytes
decimal_ℤ (pos n) = decimal n
decimal_ℤ (negsuc n) = b'-' ∷ decimal (suc n)

-- The tail of stderr behind an error, if there is one.
unfoldable pub with_tail : Bytes → Bytes → Bytes → Bytes
with_tail label stderr error =
    if is_blank error then error else with_agent_stderr error label stderr
