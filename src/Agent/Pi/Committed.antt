-- ===== src/Agent/Pi/Committed.antt =====
-- What a run of the pi backend streams and reports (Agent/Pi.antt).
use meowth.Prelude.{
  ◌≡◌, refl, sym, ap, ◌∙◌, Bool, true, false, ◌&&◌, ◌||◌, List, [], ◌∷◌, ◌++◌, append_assoc,
  append-nil, map, none, some, String, Bytes, bytes_eq, concat, is_blank, arith,
}
use meowth.Pump.{AgentMessage}
use meowth.Agent.Messages.{text_message, ContextState, live, deadline_exceeded, cancelled}
use meowth.Agent.Copilot.Runs.{streamed, streamed-append, is_completed, is_live, exits_well}
use meowth.Agent.Pi.Chunks.{emit_chunked_message_text, emit_chunked-concat}
use meowth.Agent.Pi.{
  is_assistant, is_successful_stop_reason, pi_message_error_text, PiMessage, PiStreamEvent,
  agent_start, message_start, turn_end, message_end, text_delta, thinking_delta,
  tool_execution_start, tool_execution_end, auto_retry_start, auto_retry_end, error, other, PiState,
  initial, commit, record_usage, record_assistant_usage, on_message_end, on_turn_end,
  on_message_start, on_text, retries_exhausted, on_pi_event, run_pi, PiEnd, finish_pi, verdict,
  read, waited, stream_end,
}

texts-streamed : (ts : List Bytes) → streamed (map (λ t. text_message t) ts) ≡ concat ts
unfolding streamed concat bytes_eq
texts-streamed [] = refl
texts-streamed (t ∷ ts) = ap (λ r. t ++ r) (texts-streamed ts)

-- What an event adds to the output, it streams.
abbrev Committed : PiState → List AgentMessage × PiState → Type 0
Committed st r = r.1.committed_output ≡ st.committed_output ++ streamed r.0

new-streamed :
    (new : Bytes) → streamed (map (λ t. text_message t) (emit_chunked_message_text new)) ≡ new
new-streamed new = texts-streamed (emit_chunked_message_text new) ∙ emit_chunked-concat new

commit-Committed : (st : PiState) → Committed st (commit st)
unfolding commit
commit-Committed st = ap (λ t. st.committed_output ++ t) (sym (new-streamed _))

record_usage-output :
    (options : String) (m : PiMessage) (st : PiState)
    → (record_assistant_usage options m st).committed_output ≡ st.committed_output
unfolding record_assistant_usage record_usage
record_usage-output options m st = ground arith

message_end-Committed : (m : PiMessage) (st : PiState) → Committed st (on_message_end m st)
unfolding on_message_end streamed
message_end-Committed m st = ground (arith, commit-Committed st, append-nil st.committed_output)

nothing_new :
    (st : PiState) (r : List AgentMessage × PiState)
    → streamed r.0 ≡ []
    → r.1.committed_output ≡ st.committed_output
    → Committed st r
nothing_new st r h k = rw h (k ∙ sym (append-nil st.committed_output))

on_pi_event-Committed :
    (options : String) (e : PiStreamEvent) (st : PiState) → Committed st (on_pi_event options e st)
unfolding on_pi_event on_message_start on_text on_turn_end retries_exhausted streamed bytes_eq
on_pi_event-Committed options agent_start st =
    nothing_new st (on_pi_event options agent_start st) refl refl
on_pi_event-Committed options (message_start none) st =
    nothing_new st (on_pi_event options (message_start none) st) refl refl
on_pi_event-Committed options (message_start (some m)) st =
    nothing_new st (on_pi_event options (message_start (some m)) st) refl (ground arith)
on_pi_event-Committed options (text_delta d) st =
    nothing_new st (on_pi_event options (text_delta d) st) (ground arith) refl
on_pi_event-Committed options (thinking_delta []) st =
    nothing_new st (on_pi_event options (thinking_delta []) st) refl refl
on_pi_event-Committed options (thinking_delta (c ∷ d)) st =
    nothing_new st (on_pi_event options (thinking_delta (c ∷ d)) st) refl refl
on_pi_event-Committed options (tool_execution_start call tool args) st =
    nothing_new st (on_pi_event options (tool_execution_start call tool args) st) refl refl
on_pi_event-Committed options (tool_execution_end call output) st =
    nothing_new st (on_pi_event options (tool_execution_end call output) st) refl refl
on_pi_event-Committed options (turn_end none) st =
    nothing_new st (on_pi_event options (turn_end none) st) refl refl
on_pi_event-Committed options (turn_end (some m)) st =
    nothing_new st (on_pi_event options (turn_end (some m)) st) refl
      (ground (arith, record_usage-output options m st))
on_pi_event-Committed options (message_end none) st =
    nothing_new st (on_pi_event options (message_end none) st) refl refl
on_pi_event-Committed options (message_end (some m)) st =
    message_end-Committed m (record_assistant_usage options m st)
    ∙ ap (λ t. t ++ streamed (on_message_end m (record_assistant_usage options m st)).0)
        (record_usage-output options m st)
on_pi_event-Committed options auto_retry_start st =
    nothing_new st (on_pi_event options auto_retry_start st) refl refl
on_pi_event-Committed options (auto_retry_end true e) st =
    nothing_new st (on_pi_event options (auto_retry_end true e) st) refl refl
on_pi_event-Committed options (auto_retry_end false e) st =
    nothing_new st (on_pi_event options (auto_retry_end false e) st) refl (ground arith)
on_pi_event-Committed options (error e) st =
    nothing_new st (on_pi_event options (error e) st) refl refl
on_pi_event-Committed options other st = nothing_new st (on_pi_event options other st) refl refl

run-Committed :
    (options : String) (es : List PiStreamEvent) (st : PiState)
    → Committed st (run_pi options es st)
unfolding run_pi streamed
run-Committed options [] st = sym (append-nil st.committed_output)
run-Committed options (e ∷ es) st =
    let first = on_pi_event options e st in
    let rest = run_pi options es first.1 in
    run-Committed options es first.1
    ∙ rw (on_pi_event-Committed options e st, streamed-append first.0 rest.0)
        (append_assoc st.committed_output (streamed first.0) (streamed rest.0))

verdict-streamed : (p : PiEnd) (c : ContextState) (st : PiState) → streamed (verdict p c st).0 ≡ []
unfolding verdict read waited stream_end streamed bytes_eq
verdict-streamed p live st = ground arith
verdict-streamed p deadline_exceeded st = refl
verdict-streamed p cancelled st = refl

-- Whatever the stream holds, the output that a run reports is the text that it has streamed.
pub output-streamed :
    (options : String) (es : List PiStreamEvent) (p : PiEnd)
    → let r = run_pi options es initial in
      (finish_pi p r.1).1.output ≡ streamed (r.0 ++ (finish_pi p r.1).0)
unfolding finish_pi
output-streamed options es p =
    let r = run_pi options es initial in
    run-Committed options es initial
    ∙ sym (
        streamed-append r.0 (verdict p p.context r.1).0
        ∙ rw (verdict-streamed p p.context r.1) (append-nil (streamed r.0)))

-- The event ends a message of the assistant that carries no error and stopped well.
unfoldable pub commits : PiStreamEvent → Bool
commits (message_end (some m)) =
    (is_blank (pi_message_error_text m) && is_assistant m)
    && is_successful_stop_reason m.stop_reason
commits _ = false

unfoldable pub any_commits : List PiStreamEvent → Bool
any_commits [] = false
any_commits (e ∷ es) = commits e || any_commits es

record_usage-turn :
    (options : String) (m : PiMessage) (st : PiState)
    → (record_assistant_usage options m st).has_successful_turn ≡ st.has_successful_turn
unfolding record_assistant_usage record_usage
record_usage-turn options m st = ground arith

on_pi_event-turn :
    (options : String) (e : PiStreamEvent) (st : PiState)
    → (on_pi_event options e st).1.has_successful_turn ≡ (commits e || st.has_successful_turn)
unfolding on_pi_event on_message_start on_text on_turn_end on_message_end retries_exhausted commit
    commits
on_pi_event-turn options agent_start st = refl
on_pi_event-turn options (message_start none) st = refl
on_pi_event-turn options (message_start (some m)) st = ground arith
on_pi_event-turn options (text_delta d) st = refl
on_pi_event-turn options (thinking_delta []) st = refl
on_pi_event-turn options (thinking_delta (c ∷ d)) st = refl
on_pi_event-turn options (tool_execution_start call tool args) st = refl
on_pi_event-turn options (tool_execution_end call output) st = refl
on_pi_event-turn options (turn_end none) st = refl
on_pi_event-turn options (turn_end (some m)) st = ground (arith, record_usage-turn options m st)
on_pi_event-turn options (message_end none) st = refl
on_pi_event-turn options (message_end (some m)) st = ground (arith, record_usage-turn options m st)
on_pi_event-turn options auto_retry_start st = refl
on_pi_event-turn options (auto_retry_end true e) st = refl
on_pi_event-turn options (auto_retry_end false e) st = ground arith
on_pi_event-turn options (error e) st = refl
on_pi_event-turn options other st = refl

run-turn :
    (options : String) (es : List PiStreamEvent) (st : PiState)
    → (run_pi options es st).1.has_successful_turn ≡ (any_commits es || st.has_successful_turn)
unfolding run_pi any_commits
run-turn options [] st = refl
run-turn options (e ∷ es) st =
    ground (arith, run-turn options es (on_pi_event options e st).1, on_pi_event-turn options e st)

-- What a completed run has behind it.
pub record IsSuccess (es : List PiStreamEvent) (p : PiEnd) (st : PiState) : Type 0 where
  pub turn : any_commits es ≡ true
  pub context : is_live p.context ≡ true
  pub read : exits_well p.read_error ≡ true
  pub wait : exits_well p.wait_error ≡ true
  pub settled : st.in_flight ≡ false
  pub errors : (is_blank st.stashed_error && is_blank st.fatal_error) ≡ true

verdict-completed :
    (p : PiEnd) (c : ContextState) (st : PiState)
    → is_completed (verdict p c st).1 ≡ true
    → (st.has_successful_turn ≡ true)
      × (is_live c ≡ true)
      × (exits_well p.read_error ≡ true)
      × (exits_well p.wait_error ≡ true)
      × (st.in_flight ≡ false)
      × ((is_blank st.stashed_error && is_blank st.fatal_error) ≡ true)
unfolding verdict read waited stream_end
verdict-completed p live st h = ground (arith, h)
verdict-completed p deadline_exceeded st h = cc
verdict-completed p cancelled st h = cc

-- A run is reported as completed only if some message of the assistant stopped well without an
-- error, none is in flight, no error is left over, the context is live, and the stream and the
-- process end without an error.
pub completed-IsSuccess :
    (options : String) (es : List PiStreamEvent) (p : PiEnd)
    → is_completed (finish_pi p (run_pi options es initial).1).1.status ≡ true
    → IsSuccess es p (run_pi options es initial).1
unfolding finish_pi
completed-IsSuccess options es p h =
    let st = (run_pi options es initial).1 in
    let (turn, context, read, wait, settled, errors) = verdict-completed p p.context st h in
    record {
      turn = ground (arith, run-turn options es initial, turn);
      context = context;
      read = read;
      wait = wait;
      settled = settled;
      errors = errors;
    }
