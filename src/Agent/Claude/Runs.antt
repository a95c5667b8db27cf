-- ===== src/Agent/Claude/Runs.antt =====
-- What a run of the claude backend reports (Agent/Claude.antt).
use meowth.Prelude.{
  ◌≡◌, refl, Bool, true, false, not, ◌&&◌, ◌||◌, List, [], ◌∷◌, Option, none, some, String, every,
  Bytes, bytes_eq_sound, is_blank, arith, ◌⊎◌, inl,
}
use meowth.Agent.Arguments.{resolve_session_id}
use meowth.Agent.Messages.{
  FinalStatus, completed, failed, timeout, aborted, ContextState, live, deadline_exceeded,
  cancelled,
}
use meowth.Agent.Copilot.Runs.{is_completed, is_live, exits_well}
use meowth.Agent.Claude.{
  ClaudeMessage, assistant, user, system, result, log, control_request, other, ClaudeState, initial,
  user_blocks, handle_control_request, on_result, on_claude_message, run_claude, ClaudeEnd, exited,
  unwritten, ended_by, launched, is_failed, finish_claude,
}

-- A message that does not make the run fail: neither an erroneous result nor a tool's report that it
-- went to the background.
unfoldable pub is_fine : ClaudeMessage → Bool
is_fine (user (some bs)) = not (user_blocks bs).1
is_fine (result r) = not r.is_error
is_fine _ = true

abbrev going_well : ClaudeState → Bool
going_well st = is_completed st.final_status && not st.saw_async_launch

on_message-going_well :
    (model : String) (m : ClaudeMessage) (st : ClaudeState)
    → going_well (on_claude_message model m st).1 ≡ (is_fine m && going_well st)
unfolding on_claude_message on_result handle_control_request is_fine
on_message-going_well model (assistant none) st = refl
on_message-going_well model (assistant (some c)) st = refl
on_message-going_well model (user none) st = refl
on_message-going_well model (user (some bs)) st = ground arith
on_message-going_well model (system id) st = refl
on_message-going_well model (result r) st = ground arith
on_message-going_well model (log none) st = refl
on_message-going_well model (log (some (level, t))) st = refl
on_message-going_well model (control_request id none) st = refl
on_message-going_well model (control_request id (some input)) st = ground arith
on_message-going_well model other st = refl

run-going_well :
    (model : String) (ms : List ClaudeMessage) (st : ClaudeState)
    → going_well (run_claude model ms st).1 ≡ (every is_fine ms && going_well st)
unfolding run_claude
run-going_well model [] st = refl
run-going_well model (m ∷ ms) st = ground (
  arith,
  run-going_well model ms (on_claude_message model m st).1,
  on_message-going_well model m st,
)

-- The prompt was written, or the child has named its session all the same.
abbrev pub prompt_landed : Option Bytes → Bytes → Bool
prompt_landed write_error session_id = exits_well write_error || not (is_blank session_id)

exited-completed :
    (exit : Option Bytes) (v : FinalStatus × Bytes)
    → is_completed (exited exit v).0 ≡ (is_completed v.0 && exits_well exit)
unfolding exited
exited-completed none v = ground arith
exited-completed (some e) (completed, x) = refl
exited-completed (some e) (failed, x) = refl
exited-completed (some e) (timeout, x) = refl
exited-completed (some e) (aborted, x) = refl

unwritten-completed :
    (w exit : Option Bytes) (id : Bytes) (v : FinalStatus × Bytes)
    → is_completed (unwritten w exit id v).0
      ≡ ((is_completed v.0 && exits_well exit) && prompt_landed w id)
unfolding unwritten is_blank
unwritten-completed none exit id v = ground (arith, exited-completed exit v)
unwritten-completed (some w) exit [] (completed, x) = ground arith
unwritten-completed (some w) exit [] (failed, x) = exited-completed exit (failed, x)
unwritten-completed (some w) exit [] (timeout, x) = exited-completed exit (timeout, x)
unwritten-completed (some w) exit [] (aborted, x) = exited-completed exit (aborted, x)
unwritten-completed (some w) exit (c ∷ id) v = ground (arith, exited-completed exit v)

launched-completed :
    (saw : Bool) (v : FinalStatus × Bytes)
    → is_completed (launched saw v).0 ≡ (is_completed v.0 && not saw)
unfolding launched
launched-completed false v = ground arith
launched-completed true (completed, x) = refl
launched-completed true (failed, x) = refl
launched-completed true (timeout, x) = refl
launched-completed true (aborted, x) = refl

ended-completed :
    (p : ClaudeEnd) (c : ContextState) (st : ClaudeState)
    → is_completed (ended_by p c st).0 ≡ (
        ((is_completed st.final_status && exits_well p.exit_error)
          && prompt_landed p.write_error st.session_id)
        && is_live c)
unfolding ended_by
ended-completed p live st = ground (
  arith,
  unwritten-completed p.write_error p.exit_error st.session_id (st.final_status, st.final_error),
)
ended-completed p deadline_exceeded st = ground arith
ended-completed p cancelled st = ground arith

-- A run is reported as completed exactly when its context is live at the end, no message was an
-- erroneous result or a tool's report that it went to the background, the process exits without an
-- error, and the prompt was written unless the child has named its session.
pub completed_iff_fine :
    (model : String) (ms : List ClaudeMessage) (p : ClaudeEnd)
    → let st = (run_claude model ms initial).1 in
      is_completed (finish_claude p st).status ≡ (
        ((every is_fine ms && exits_well p.exit_error) && prompt_landed p.write_error st.session_id)
        && is_live p.context)
unfolding finish_claude
completed_iff_fine model ms p =
    let st = (run_claude model ms initial).1 in
    ground (
      arith,
      launched-completed st.saw_async_launch (ended_by p p.context st),
      ended-completed p p.context st,
      run-going_well model ms initial,
    )

resolve-failed :
    (requested emitted : Bytes)
    → is_blank requested ≡ false
    → (resolve_session_id requested emitted true ≡ [])
      ⊎ (resolve_session_id requested emitted true ≡ requested)
unfolding resolve_session_id is_blank
resolve-failed [] emitted h = cc
resolve-failed (c ∷ requested) [] h = inl refl
resolve-failed (c ∷ requested) (d ∷ emitted) h =
    ground (arith, bytes_eq_sound (d ∷ emitted) (c ∷ requested))

-- A failed run that was to resume a session reports that session or none.
pub failed_resume :
    (p : ClaudeEnd) (st : ClaudeState)
    → is_blank p.resume_session_id ≡ false
    → (finish_claude p st).status ≡ failed
    → ((finish_claude p st).session_id ≡ [])
      ⊎ ((finish_claude p st).session_id ≡ p.resume_session_id)
unfolding finish_claude is_failed
failed_resume p st r h = rw h (resolve-failed p.resume_session_id st.session_id r)
