-- ===== src/Agent/Copilot/Runs.antt =====
-- What a run of the copilot backend yields (Agent/Copilot.antt).
use meowth.Prelude.{
  ◌≡◌, refl, sym, ap, ◌∙◌, Bool, true, false, ◌&&◌, List, [], ◌∷◌, ◌++◌, append_assoc, append-nil,
  Option, none, some, String, if◌then◌else◌, every, map, Bytes, codes, bytes_eq, concat, is_blank,
  trim_suffix-append, arith,
}
use meowth.Pump.{AgentMessage}
use meowth.Agent.Messages.{
  FinalStatus, completed, failed, ContextState, live, deadline_exceeded, cancelled,
}
use meowth.Agent.Copilot.{
  CopilotEvent, session_start, message_delta, assistant_message, reasoning, tool_execution_complete,
  turn_start, session_error, session_warning, result, unknown, AssistantMessage, ToolRequest,
  CopilotEventState, new_copilot_event_state, separator, with_turn, requested, thought,
  on_assistant_message, is_zero, handle_copilot_event, run_events, ProcessEnd, exited, ended_by,
  finish_copilot,
}

-- The text that the messages stream, in order.
unfoldable pub streamed : List AgentMessage → Bytes
streamed [] = []
streamed (m ∷ ms) = (if bytes_eq m.kind (codes "text") then m.content else []) ++ streamed ms

abbrev pub deltas : List Bytes → List CopilotEvent
deltas ds = map (λ (d : Bytes). message_delta (some d)) ds

pub streamed-append : (xs ys : List AgentMessage) → streamed (xs ++ ys) ≡ streamed xs ++ streamed ys
unfolding streamed
streamed-append [] ys = refl
streamed-append (m ∷ xs) ys = simp (streamed-append xs ys, append_assoc)

requested-streamed : (ts : List ToolRequest) → streamed (requested ts) ≡ []
unfolding streamed requested bytes_eq
requested-streamed [] = refl
requested-streamed (t ∷ ts) = requested-streamed ts

thought-streamed : (t : Bytes) → streamed (thought t) ≡ []
unfolding streamed thought bytes_eq
thought-streamed [] = refl
thought-streamed (c ∷ t) = refl

run-append :
    (xs ys : List CopilotEvent) (st : CopilotEventState)
    → run_events (xs ++ ys) st ≡ (
      (run_events xs st).0 ++ (run_events ys (run_events xs st).1).0,
      (run_events ys (run_events xs st).1).1,
    )
unfolding run_events
run-append [] ys st = refl
run-append (e ∷ xs) ys st = simp (run-append xs ys (handle_copilot_event e st).1, append_assoc)

deltas-output :
    (ds : List Bytes) (st : CopilotEventState)
    → (run_events (deltas ds) st).1.output ≡ st.output ++ concat ds
unfolding run_events handle_copilot_event concat
deltas-output [] st = sym (append-nil st.output)
deltas-output ([] ∷ ds) st = deltas-output ds st
deltas-output ((c ∷ d) ∷ ds) st =
    deltas-output ds (record st { output = st.output ++ c ∷ d })
    ∙ append_assoc st.output (c ∷ d) (concat ds)

deltas-streamed :
    (ds : List Bytes) (st : CopilotEventState) → streamed (run_events (deltas ds) st).0 ≡ concat ds
unfolding run_events handle_copilot_event concat streamed bytes_eq
deltas-streamed [] st = refl
deltas-streamed ([] ∷ ds) st = deltas-streamed ds st
deltas-streamed ((c ∷ d) ∷ ds) st =
    ap (λ t. (c ∷ d) ++ t) (deltas-streamed ds (record st { output = st.output ++ c ∷ d }))

turn-output :
    (o content : Bytes)
    → is_blank content ≡ false
    → with_turn (o ++ content) content ≡ o ++ separator o ++ content
unfolding with_turn is_blank
turn-output o [] h = cc
turn-output o (c ∷ s) h = rw (trim_suffix-append o (c ∷ s)) refl

message-streamed :
    (m : AssistantMessage) (st : CopilotEventState) → streamed (on_assistant_message m st).0 ≡ []
unfolding on_assistant_message
message-streamed m st =
    streamed-append (thought m.reasoning_text) (requested m.tool_requests)
    ∙ rw (thought-streamed m.reasoning_text, requested-streamed m.tool_requests) refl

last-output :
    (m : AssistantMessage) (st : CopilotEventState)
    → (run_events (assistant_message (some m) ∷ []) st).1.output ≡ with_turn st.output m.content
unfolding run_events handle_copilot_event on_assistant_message
last-output m st = refl

last-streamed :
    (m : AssistantMessage) (st : CopilotEventState)
    → streamed (run_events (assistant_message (some m) ∷ []) st).0 ≡ []
unfolding run_events handle_copilot_event
last-streamed m st = rw (append-nil (on_assistant_message m st).0) (message-streamed m st)

-- A turn whose text comes first in deltas and then whole adds that text to the output once, behind a
-- blank line where there is output before it; and the messages stream it once.
pub turn-once :
    (ds : List Bytes) (m : AssistantMessage) (st : CopilotEventState)
    → concat ds ≡ m.content
    → is_blank m.content ≡ false
    → let r = run_events (deltas ds ++ assistant_message (some m) ∷ []) st in
      (r.1.output ≡ st.output ++ separator st.output ++ m.content) × (streamed r.0 ≡ m.content)
turn-once ds m st e h =
    let before = run_events (deltas ds) st in
    rw (run-append (deltas ds) (assistant_message (some m) ∷ []) st) (
      last-output m before.1 ∙ rw (deltas-output ds st, e) (turn-output st.output m.content h),
      streamed-append before.0 (run_events (assistant_message (some m) ∷ []) before.1).0
          ∙ rw (last-streamed m before.1, deltas-streamed ds st, append-nil (concat ds)) e,
    )

-- An event after which the run cannot complete.
unfoldable pub is_harmless : CopilotEvent → Bool
is_harmless (session_error (some m)) = false
is_harmless (result id code) = is_zero code
is_harmless _ = true

status-step :
    (e : CopilotEvent) (st : CopilotEventState)
    → (handle_copilot_event e st).1.final_status
      ≡ (if is_harmless e then st.final_status else failed)
unfolding handle_copilot_event is_harmless on_assistant_message
status-step (session_start none) st = refl
status-step (session_start (some s)) st = refl
status-step (message_delta none) st = refl
status-step (message_delta (some [])) st = refl
status-step (message_delta (some (c ∷ d))) st = refl
status-step (assistant_message none) st = refl
status-step (assistant_message (some m)) st = refl
status-step (reasoning none) st = refl
status-step (reasoning (some r)) st = refl
status-step (tool_execution_complete none) st = refl
status-step (tool_execution_complete (some t)) st = refl
status-step turn_start st = refl
status-step (session_error none) st = refl
status-step (session_error (some m)) st = refl
status-step (session_warning none) st = refl
status-step (session_warning (some m)) st = refl
status-step (result id code) st = ground arith
status-step unknown st = refl

status-run :
    (es : List CopilotEvent) (st : CopilotEventState)
    → (run_events es st).1.final_status ≡ (if every is_harmless es then st.final_status else failed)
unfolding run_events
status-run [] st = refl
status-run (e ∷ es) st =
    ground (arith, status-step e st, status-run es (handle_copilot_event e st).1)

abbrev pub is_completed : FinalStatus → Bool
is_completed completed = true
is_completed _ = false

abbrev pub is_live : ContextState → Bool
is_live live = true
is_live _ = false

abbrev pub exits_well : Option Bytes → Bool
exits_well none = true
exits_well (some e) = false

exited-completed :
    (x : Option Bytes) (st : CopilotEventState)
    → is_completed (exited x st).final_status ≡ (is_completed st.final_status && exits_well x)
unfolding exited
exited-completed none st = ground arith
exited-completed (some e) st = ground arith

ended-completed :
    (p : ProcessEnd) (c : ContextState) (st : CopilotEventState)
    → is_completed (ended_by p c st).final_status
      ≡ ((is_completed st.final_status && is_live c) && exits_well p.exit_error)
unfolding ended_by
ended-completed p live st = ground (arith, exited-completed p.exit_error st)
ended-completed p deadline_exceeded st = ground arith
ended-completed p cancelled st = ground arith

-- A run is reported as completed exactly when no event was an error of the session or a result with
-- an exit code other than 0, its context is still live at the end, and the process exits without an
-- error.
pub completed_iff :
    (es : List CopilotEvent) (seed : String) (p : ProcessEnd)
    → is_completed (finish_copilot p (run_events es (new_copilot_event_state seed)).1).status
      ≡ ((every is_harmless es && is_live p.context) && exits_well p.exit_error)
unfolding finish_copilot new_copilot_event_state
completed_iff es seed p =
    let st = (run_events es (new_copilot_event_state seed)).1 in
    ground (arith, ended-completed p p.context st, status-run es (new_copilot_event_state seed))
