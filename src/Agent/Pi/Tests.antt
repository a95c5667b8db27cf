-- ===== src/Agent/Pi/Tests.antt =====
-- Runs of the pi backend (Agent/Pi.antt).
use meowth.Prelude.{
  ◌≡◌, refl, true, List, [], ◌∷◌, ◌++◌, none, some, every, concat, codes, is_blank, trim_space,
  bytes_eq, to_lower, has_prefix, has_suffix,
}
use meowth.Agent.Messages.{live}
use meowth.Agent.Copilot.Runs.{streamed, is_completed}
use meowth.Agent.Pi.Markup.{
  without_control_tokens, drain_pi_text_buffer, flush_pi_text_buffer, drain_pi_sanitized_text,
  drain, plan, next_pi_tool_markup_prefix, scan_pi_tool_markup_end, name_length, is_name_byte,
  control_token, safe_pi_text_emit_len,
}
use meowth.Agent.Pi.Markup.Plain.{is_plain}
use meowth.Agent.Pi.{
  PiMessage, PiStreamEvent, message_start, message_end, text_delta, auto_retry_start, error,
  initial, is_assistant, run_pi, PiEnd, finish_pi, on_pi_event, pi_message_error_text,
  is_successful_stop_reason, commit, record_assistant_usage,
}
use meowth.Agent.Pi.Committed.{output-streamed, commits, IsSuccess, completed-IsSuccess}
use meowth.Agent.Pi.Turns.{deltas, turn-output}

abbrev assistant : PiMessage
assistant = record {
  role = codes "assistant";
  model = "m";
  usage = none;
  stop_reason = [];
  error_message = [];
}

abbrev stopped : PiMessage
stopped = record assistant { stop_reason = codes "stop" }

abbrev end : PiEnd
end = record {
  context = live;
  timeout_text = [];
  read_error = none;
  wait_error = none;
  session_path = codes "s";
}

-- The text of an attempt that is retried is thrown away.
abbrev retried : List PiStreamEvent
retried =
    message_start (some assistant)
      ∷ text_delta (codes "bad")
      ∷ auto_retry_start
      ∷ message_start (some assistant)
      ∷ deltas (codes "he" ∷ codes "llo" ∷ [])
    ++ message_end (some stopped) ∷ []

retry_discards : (finish_pi end (run_pi "" retried initial).1).1.output ≡ codes "hello"
unfolding finish_pi run_pi on_pi_event is_blank pi_message_error_text trim_space bytes_eq to_lower
    is_successful_stop_reason is_assistant commit record_assistant_usage drain_pi_text_buffer
    drain_pi_sanitized_text without_control_tokens drain plan next_pi_tool_markup_prefix
    safe_pi_text_emit_len has_prefix has_suffix control_token flush_pi_text_buffer
retry_discards = refl

-- An error event without a text is no failure once a turn has stopped well.
silent_error_completes :
    is_completed (finish_pi end (run_pi "" (retried ++ error [] ∷ []) initial).1).1.status ≡ true
unfolding finish_pi is_blank run_pi on_pi_event pi_message_error_text trim_space bytes_eq to_lower
    is_successful_stop_reason is_assistant commit
silent_error_completes = refl

-- A colon behind "call" stops the stream of text, and lets a tool call through.
prose_stalls : drain_pi_text_buffer [] (codes "call: call:sh{x}") ≡ ([], codes "call: call:sh{x}")
unfolding drain_pi_text_buffer drain_pi_sanitized_text without_control_tokens drain plan
    next_pi_tool_markup_prefix has_prefix scan_pi_tool_markup_end name_length is_name_byte
prose_stalls = refl

prose_leaks : flush_pi_text_buffer (codes "call: call:sh{x}") ≡ codes "call: call:sh{x}"
unfolding flush_pi_text_buffer drain_pi_sanitized_text without_control_tokens drain plan
    next_pi_tool_markup_prefix has_prefix scan_pi_tool_markup_end name_length is_name_byte
    control_token
prose_leaks = refl

call_removed : flush_pi_text_buffer (codes "a call:sh{x {y}}<tool_call|> b<|end>") ≡ codes "a  b"
unfolding flush_pi_text_buffer drain_pi_sanitized_text without_control_tokens drain plan
    next_pi_tool_markup_prefix has_prefix scan_pi_tool_markup_end name_length is_name_byte
    control_token safe_pi_text_emit_len has_suffix bytes_eq
call_removed = refl

is_retried_success : is_completed (finish_pi end (run_pi "" retried initial).1).1.status ≡ true
unfolding finish_pi is_blank run_pi on_pi_event pi_message_error_text trim_space bytes_eq to_lower
    is_successful_stop_reason is_assistant commit record_assistant_usage
is_retried_success = refl

output-streamed_example :
    let r = run_pi "" retried initial in
    (finish_pi end r.1).1.output ≡ streamed (r.0 ++ (finish_pi end r.1).0)
output-streamed_example = output-streamed "" retried end

completed-IsSuccess_example : IsSuccess retried end (run_pi "" retried initial).1
completed-IsSuccess_example = completed-IsSuccess "" retried end is_retried_success

role_fits : is_assistant assistant ≡ true
unfolding is_assistant bytes_eq
role_fits = refl

texts_plain : every is_plain (codes "he" ∷ codes "llo" ∷ []) ≡ true
texts_plain = refl

stops_well : commits (message_end (some stopped)) ≡ true
unfolding commits is_blank pi_message_error_text trim_space bytes_eq to_lower
    is_successful_stop_reason is_assistant
stops_well = refl

turn-output_example :
    (run_pi ""
      (message_start (some assistant) ∷ deltas (codes "he" ∷ codes "llo" ∷ [])
        ++ message_end (some stopped) ∷ [])
      initial).1.committed_output
    ≡ initial.committed_output ++ concat (codes "he" ∷ codes "llo" ∷ [])
turn-output_example =
    turn-output "" assistant stopped (codes "he" ∷ codes "llo" ∷ []) initial role_fits texts_plain
      stops_well
