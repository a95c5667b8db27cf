-- ===== src/Handlers/Exec/Tests.antt =====
-- Durations of exec requests (Handlers/Exec.antt), and runs of the handler (Handlers/Exec/Flow.antt).
use meowth.Problem.{invalid_request}
use meowth.CancelRegistry.{new_cancel_registry}
use meowth.Envelope.{Codec, build_session_started, encode_line}
use meowth.Store.Messages.{append_message, event_type_is_valid, has_key}
use meowth.Store.Sessions.{
  find, insert_session, backend_is_valid, is_running, is_terminal, update_session_ended,
}
use meowth.Pump.{Config, sessions_or}
use meowth.Handlers.Exec.Flow.{
  decoded, directory, made, ExecIo, Daemon, refused, exec, is_supported_type, validate_exec_cwd,
  is_client_backend_input_error,
}
use meowth.Handlers.Exec.Flow.Stranded.{runs, is_there, is_pumped, is_stranded, stranded_iff}
use meowth.Prelude.{
  ◌≡◌, ◌↔◌, refl, true, false, some, none, [], ◌∷◌, codes, is_blank, trim_space, has_prefix, ok,
  err, pos, negsuc, contains_text, to_lower,
}
use meowth.Handlers.Exec.{
  validate_exec_timeouts, is_negative, exceeds_max, timeout_too_large, ms_to_duration, wrap,
}
use meowth.Handlers.Exec.Durations.{IsExact, accepted_iff_IsExact}

longest_accepted : validate_exec_timeouts (pos 9223372036854) (pos 0) (pos 0) ≡ ok tt
unfolding validate_exec_timeouts is_negative exceeds_max
longest_accepted = refl

longer_refused : validate_exec_timeouts (pos 9223372036855) (pos 0) (pos 0) ≡ err timeout_too_large
unfolding validate_exec_timeouts is_negative exceeds_max
longer_refused = refl

longer_wraps : ms_to_duration (pos 9223372036855) ≡ negsuc 9223372036854551615
unfolding ms_to_duration wrap
longer_wraps = refl

accepted_iff_IsExact_example :
    (validate_exec_timeouts (pos 9223372036854) (pos 0) (pos 0) ≡ ok tt)
    ↔ (IsExact (pos 9223372036854) × IsExact (pos 0) × (is_negative (pos 0) ≡ false))
accepted_iff_IsExact_example = accepted_iff_IsExact (pos 9223372036854) (pos 0) (pos 0)

abbrev codec : Codec
codec = record {
  marshal = λ p. some (1 ∷ []);
  unmarshal_message = λ raw. none;
  encode = λ e. some (7 ∷ 10 ∷ []);
  decode = λ line. none;
}

abbrev config : Config
config = record {
  codec = codec;
  session_id = "s1";
  heartbeat_interval = 1000;
  text = λ e. "error";
  marshal_usage = λ u. none;
}

abbrev daemon : Daemon
daemon = record { sessions = []; messages = []; registry = new_cancel_registry }

abbrev io : ExecIo
io = record {
  body = decoded (record {
    prompt = codes "hi";
    cwd = "/w";
    model = "";
    thread_name = "";
    max_turns = pos 0;
    timeout_ms = pos 0;
    semantic_inactivity_timeout_ms = pos 0;
  });
  stat = directory;
  factory = made;
  is_flusher = true;
  uuid_fails = false;
  now = 5;
  daemon_pid = 1;
  insert_fails = false;
  cancel_number = 0;
  execute_error = none;
  failed_at = 6;
  end_fails = false;
  start_now = 6;
  append_fails = false;
  write_fails = true;
  events = [];
  meanwhile = λ r. r;
}

-- The client is gone before the first line: its session stays running in the table.
client_gone_strands : runs "s1" (exec config (λ e. "error") io "pi" "pi" daemon).0.sessions ≡ true
unfolding exec runs is_running is_supported_type is_blank trim_space validate_exec_cwd has_prefix
    validate_exec_timeouts is_negative exceeds_max insert_session backend_is_valid find
    build_session_started encode_line append_message event_type_is_valid has_key
client_gone_strands = refl

failed_execute_ends :
    (exec config
      (λ e. "error")
      (record io { execute_error = some "chdir /w: gone" })
      "pi"
      "pi"
      daemon).1
    ≡ refused 400 invalid_request "chdir /w: gone"
unfolding exec is_supported_type is_blank trim_space validate_exec_cwd has_prefix
    validate_exec_timeouts is_negative exceeds_max insert_session backend_is_valid find
    is_client_backend_input_error contains_text to_lower
failed_execute_ends = refl

-- The backend does not start, and the driver fails to end the row.
abbrev unended : ExecIo
unended = record io { execute_error = some "chdir /w: gone"; end_fails = true }

not_pumped : is_pumped (exec config (λ e. "error") unended "pi" "pi" daemon).1 ≡ false
unfolding exec is_pumped is_supported_type is_blank trim_space validate_exec_cwd has_prefix
    validate_exec_timeouts is_negative exceeds_max insert_session backend_is_valid find
    is_client_backend_input_error contains_text to_lower
not_pumped = refl

unended_strands : runs "s1" (exec config (λ e. "error") unended "pi" "pi" daemon).0.sessions ≡ true
unfolding exec runs is_running is_supported_type is_blank trim_space validate_exec_cwd has_prefix
    validate_exec_timeouts is_negative exceeds_max insert_session backend_is_valid find
    update_session_ended sessions_or is_terminal
unended_strands = refl

stranded_iff_example :
    runs "s1" (exec config (λ e. "error") unended "pi" "pi" daemon).0.sessions
    ≡ is_stranded true
        (is_there "s1" (exec config (λ e. "error") unended "pi" "pi" daemon).0.sessions)
        (exec config (λ e. "error") unended "pi" "pi" daemon).1
unfolding find
stranded_iff_example = stranded_iff config (λ e. "error") unended "pi" "pi" daemon refl not_pumped
