-- ===== src/Agent/Codex/Turn.antt =====
-- A turn of the codex backend: the wait of Execute in daemon/pkg/agent/codex.go, and its timers. The
-- events stand in the order in which the select takes them; a duration is its number of nanoseconds,
-- and its format %s is an argument.
pub mod Progress
use meowth.Prelude.{
  ℕ, zero, ◌+◌, ◌*◌, ◌/◌, Bool, true, false, not, ◌&&◌, ◌||◌, List, [], ◌∷◌, ◌++◌, Option, none,
  some, String, str_eq, if◌then◌else◌, Bytes, codes, bytes_eq, is_blank, ltb, leb, ◌==◌, trim_space,
  contains_text, ℤ, pos, is_positive, lt_ℤ,
}
use meowth.Pump.{AgentMessage, TokenUsage}
use meowth.Agent.Messages.{
  Usage, FinalStatus, completed, failed, timeout, aborted, Outcome, ContextState, live,
  deadline_exceeded, cancelled,
}
use meowth.Agent.StderrTail.{with_agent_stderr}
use meowth.Agent.Codex.Reading.{is_zero}

-- `describeCodexSemanticActivity`
unfoldable pub describe_codex_semantic_activity : AgentMessage → Bytes
describe_codex_semantic_activity m =
    if (bytes_eq m.kind (codes "tool-use") || bytes_eq m.kind (codes "tool-result"))
      && not (is_blank m.tool)
    then m.kind ++ codes ":" ++ m.tool
    else if bytes_eq m.kind (codes "status") && not (is_blank m.status)
    then m.kind ++ codes ":" ++ m.status
    else m.kind

abbrev status_running : Bytes
status_running = codes "status:running"

-- `isCodexFirstTurnProgressActivity`
unfoldable pub is_progress : Bytes → Bool
is_progress activity =
    not (is_blank activity)
    && not (bytes_eq activity status_running)
    && not (bytes_eq activity (codes "error:retry"))

abbrev default_no_progress_timeout : ℕ
default_no_progress_timeout = 30 * 1000000000

-- `codexFirstTurnNoProgressTimeout`, of a timeout that is not negative.
unfoldable pub codex_first_turn_no_progress_timeout : ℕ → ℕ
codex_first_turn_no_progress_timeout inactivity =
    if inactivity == 0 || ltb default_no_progress_timeout inactivity
    then default_no_progress_timeout
    else if inactivity * 4 / 5 == 0
    then inactivity
    else inactivity * 4 / 5

pub data TimeoutKind : Type 0 where
  semantic_inactivity first_turn_no_progress : TimeoutKind

-- The variables of the wait; the timer of the first turn is set while its channel is not nil.
pub record Wait : Type 0 where
  pub last_activity : Bytes
  pub first_turn_started : Bool
  pub first_turn_progress_observed : Bool
  pub timer_set : Bool

abbrev pub first_wait : Wait
first_wait = record {
  last_activity = codes "turn/start";
  first_turn_started = false;
  first_turn_progress_observed = false;
  timer_set = false;
}

-- How a wait ends.
pub record TurnEnd : Type 0 where
  pub status : FinalStatus
  pub error : Bytes
  pub timeout_kind : Option TimeoutKind
  pub process_error : Option Bytes

-- The cases of the select. When the process is gone: whether a turn has ended all the same, the
-- context, and the process's error.
pub data WaitEvent : Type 0 where
  turn_over : Bool → WaitEvent
  active : Bytes → WaitEvent
  no_progress idle : WaitEvent
  context_done : ContextState → WaitEvent
  process_done : Option Bool → ContextState → Bytes → WaitEvent

abbrev ends : FinalStatus → Bytes → TurnEnd
ends status error = record {
  status = status;
  error = error;
  timeout_kind = none;
  process_error = none;
}

abbrev pub times_out : TimeoutKind → TurnEnd
times_out kind = record {
  status = timeout;
  error = [];
  timeout_kind = some kind;
  process_error = none;
}

-- `finishTurn`
unfoldable pub finish_turn : Bytes → Bool → TurnEnd
finish_turn turn_error true =
    ends aborted (if is_blank turn_error then codes "turn was aborted" else turn_error)
finish_turn turn_error false =
    if is_blank turn_error then ends completed [] else ends failed turn_error

-- `finishRunContextDone`
unfoldable pub finish_context : Bytes → ContextState → TurnEnd
finish_context timeout_text deadline_exceeded =
    ends timeout (codes "codex timed out after " ++ timeout_text)
finish_context timeout_text live = ends aborted (codes "execution cancelled")
finish_context timeout_text cancelled = ends aborted (codes "execution cancelled")

process_gone : Bytes → Bytes → Option Bool → ContextState → Bytes → TurnEnd
process_gone turn_error timeout_text (some aborts) context why = finish_turn turn_error aborts
process_gone turn_error timeout_text none live why = record {
  status = failed;
  error = why;
  timeout_kind = none;
  process_error = some why;
}
process_gone turn_error timeout_text none deadline_exceeded why =
    finish_context timeout_text deadline_exceeded
process_gone turn_error timeout_text none cancelled why = finish_context timeout_text cancelled

observe : Bytes → Wait → Wait
observe activity w =
    let seen : Wait = record w { last_activity = activity } in
    if bytes_eq activity status_running && not w.first_turn_started
    then record seen { first_turn_started = true; timer_set = true }
    else if w.first_turn_started && not w.first_turn_progress_observed && is_progress activity
    then record seen { first_turn_progress_observed = true; timer_set = false }
    else seen

-- One pass of the loop: the next state, or the end. A timer that is not set does not fire.
unfoldable pub wait_step : Bytes → Bytes → WaitEvent → Wait → Wait × Option TurnEnd
unfolding observe process_gone
wait_step turn_error timeout_text (turn_over aborts) w = (w, some (finish_turn turn_error aborts))
wait_step turn_error timeout_text (active activity) w = (observe activity w, none)
wait_step turn_error timeout_text no_progress w =
    (w, if w.timer_set then some (times_out first_turn_no_progress) else none)
wait_step turn_error timeout_text idle w = (w, some (times_out semantic_inactivity))
wait_step turn_error timeout_text (context_done context) w =
    (w, some (finish_context timeout_text context))
wait_step turn_error timeout_text (process_done turn context why) w =
    (w, some (process_gone turn_error timeout_text turn context why))

unless_ended : Wait × Option TurnEnd → Wait × Option TurnEnd → Wait × Option TurnEnd
unless_ended (w, none) rest = rest
unless_ended (w, some fin) rest = (w, some fin)

-- The loop: the last state and the end, if the events reach one.
unfoldable pub wait_turn : Bytes → Bytes → List WaitEvent → Wait → Wait × Option TurnEnd
unfolding unless_ended
wait_turn turn_error timeout_text [] w = (w, none)
wait_turn turn_error timeout_text (e ∷ es) w =
    let step = wait_step turn_error timeout_text e w in
    unless_ended step (wait_turn turn_error timeout_text es step.0)
