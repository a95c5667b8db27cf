-- ===== src/Agent/Copilot/Tests.antt =====
-- Runs of the copilot backend (Agent/Copilot.antt).
use meowth.Agent.CommandLines.{decimal}
use meowth.Agent.StderrTail.{with_agent_stderr}
use meowth.Prelude.{
  ◌≡◌, refl, false, [], ◌∷◌, ◌++◌, none, some, concat, is_blank, codes, pos, trim_suffix,
  has_suffix, bytes_eq, trim_space,
}
use meowth.Agent.Messages.{live, with_tail, decimal_ℤ}
use meowth.Agent.Copilot.{
  assistant_message, result, AssistantMessage, CopilotEventState, new_copilot_event_state,
  separator, run_events, ProcessEnd, finish_copilot, handle_copilot_event, is_zero,
  with_copilot_exit_code,
}
use meowth.Agent.Copilot.Runs.{streamed, deltas, turn-once}

abbrev message : AssistantMessage
message = record {
  content = codes "done";
  tool_requests = [];
  output_tokens = pos 7;
  reasoning_text = codes "hm";
}

abbrev second : CopilotEventState
second = record (new_copilot_event_state "gpt") { output = codes "done" }

abbrev ended : ProcessEnd
ended = record { context = live; timeout_text = []; exit_error = none; stderr_tail = [] }

turn_kept_apart :
    (run_events
      (deltas (codes "do" ∷ codes "ne" ∷ []) ++ assistant_message (some message) ∷ [])
      second).1.output
    ≡ codes "done" ++ 10 ∷ 10 ∷ codes "done"
unfolding run_events handle_copilot_event trim_suffix has_suffix bytes_eq
turn_kept_apart = refl

exit_code_in_error :
    (finish_copilot ended (run_events (result (codes "s") (pos 3) ∷ []) second).1).error
    ≡ codes "copilot exited with code 3"
unfolding finish_copilot with_tail is_blank run_events handle_copilot_event is_zero
    with_copilot_exit_code trim_space new_copilot_event_state with_agent_stderr decimal_ℤ decimal
exit_code_in_error = refl

content_joined : concat (codes "do" ∷ codes "ne" ∷ []) ≡ codes "done"
unfolding concat
content_joined = refl

content_there : is_blank message.content ≡ false
unfolding is_blank
content_there = refl

turn-once_example :
    let r =
      run_events
        (deltas (codes "do" ∷ codes "ne" ∷ []) ++ assistant_message (some message) ∷ [])
        second in
    (r.1.output ≡ second.output ++ separator second.output ++ message.content)
    × (streamed r.0 ≡ message.content)
turn-once_example =
    turn-once (codes "do" ∷ codes "ne" ∷ []) message second content_joined content_there
