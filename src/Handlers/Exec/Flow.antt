-- ===== src/Handlers/Exec/Flow.antt =====
-- POST /v1/agents/{type}/exec: the whole of Exec in daemon/internal/server/handlers/exec.go, with the
-- runner of daemon/internal/server/pump_runner.go, over the store, the cancel registry and the pump. What
-- other requests do to the registry while the pump runs is an argument.
pub mod Stranded
use meowth.Prelude.{
  ℕ, Bool, true, false, not, ◌&&◌, ◌||◌, List, [], ◌∷◌, ◌++◌, Option, none, some, String, str_eq,
  str_append, if◌then◌else◌, Bytes, codes, is_blank, has_prefix, trim_space, to_lower,
  contains_text, Result, ok, err, ℤ, pos,
}
use meowth.Problem.{
  Kind, invalid_request, unknown_backend, payload_too_large, backend_unavailable, internal,
}
use meowth.Store.Sessions.{
  Sessions, SessionError, Session, InsertSessionParams, insert_session, status_failed,
  update_session_ended,
}
use meowth.Store.Messages.{Messages, MessageError, MessageRow, append_message}
use meowth.CancelRegistry.{Registry, register, unregister}
use meowth.Envelope.{
  Codec, Builder, Envelope, EnvelopeError, new_builder, build_session_started, encode_line,
}
use meowth.Pump.{Config, Event, PumpResult, Pump, sessions_or}
use meowth.Pump.Stream.{Opening, pump_agent_session}
use meowth.Handlers.Exec.{
  ExecError, timeout_negative, timeout_too_large, inactivity_negative, inactivity_too_large,
  max_turns_negative, validate_exec_timeouts,
}

-- `execRequest`, less the fields that only the backend reads.
pub record ExecRequest : Type 0 where
  pub prompt : Bytes
  pub cwd : String
  pub model : String
  pub thread_name : String
  pub max_turns : ℤ
  pub timeout_ms : ℤ
  pub semantic_inactivity_timeout_ms : ℤ

-- What the decoder makes of the body.
pub data ExecBody : Type 0 where
  too_large malformed trailing : ExecBody
  decoded : ExecRequest → ExecBody

-- `os.Stat` of the working directory.
pub data Stat : Type 0 where
  missing inaccessible not_a_directory directory : Stat

-- `Factory.New`
pub data Factory : Type 0 where
  made : Factory
  unknown_type unavailable : String → Factory
  broken : Factory

-- What one request meets, in the order of the code.
pub record ExecIo : Type 0 where
  pub body : ExecBody
  pub stat : Stat
  pub factory : Factory
  pub is_flusher : Bool
  pub uuid_fails : Bool
  pub now : ℕ
  pub daemon_pid : ℕ
  pub insert_fails : Bool
  pub cancel_number : ℕ
  -- the error of backend.Execute, and the driver's answer to the update of the row on a failure
  pub execute_error : Option String
  pub failed_at : ℕ
  pub end_fails : Bool
  pub start_now : ℕ
  pub append_fails : Bool
  pub write_fails : Bool
  pub events : List Event
  -- what other requests do to the registry before the handler returns
  pub meanwhile : Registry → Registry

pub record Daemon : Type 0 where
  pub sessions : Sessions
  pub messages : Messages
  pub registry : Registry

-- How the handler ends: with a problem; or, behind the headers of the stream, without a line that
-- could be built, with a row that could not be stored, without a client; or with what the pump returns.
pub data ExecEnd : Type 0 where
  refused : ℕ → Kind → String → ExecEnd
  unbuilt unstored client_gone : ExecEnd
  pumped : List Bytes → Option PumpResult → ExecEnd

-- `IsSupportedType`
unfoldable pub is_supported_type : String → Bool
is_supported_type t =
    str_eq t "claude"
    || str_eq t "codex"
    || str_eq t "copilot"
    || str_eq t "hermes"
    || str_eq t "pi"

-- `validateExecCwd`: its error, if it has one.
unfoldable pub validate_exec_cwd : Stat → String → Option String
validate_exec_cwd stat cwd =
    let bad = elim stat as (λ _. Option String) [
      | missing ↦ some (str_append "cwd does not exist: " cwd)
      | inaccessible ↦ some (str_append "cwd is not accessible: " cwd)
      | not_a_directory ↦ some (str_append "cwd is not a directory: " cwd)
      | directory ↦ none
    ] in
    if str_eq cwd ""
    then none
    else if has_prefix (codes cwd) (codes "/")
    then bad
    else some "cwd must be an absolute path"

unfoldable pub exec_error_text : ExecError → String
exec_error_text timeout_negative = "timeout_ms must be >= 0"
exec_error_text timeout_too_large = "timeout_ms exceeds maximum convertible duration"
exec_error_text inactivity_negative = "semantic_inactivity_timeout_ms must be >= 0"
exec_error_text inactivity_too_large =
    "semantic_inactivity_timeout_ms exceeds maximum convertible duration"
exec_error_text max_turns_negative = "max_turns must be >= 0"

-- `isClientBackendInputError`
unfoldable pub is_client_backend_input_error : String → Bool
is_client_backend_input_error e =
    let msg = to_lower (codes e) in
    contains_text msg (codes "argument list too long")
    || contains_text msg (codes "no such file or directory") && contains_text msg (codes "chdir")
    || contains_text msg (codes "not a directory")
    || contains_text msg (codes "chdir ")

internal_problem : ExecEnd
internal_problem = refused 500 internal "internal"

invalid : String → ExecEnd
invalid detail = refused 400 invalid_request detail

fail_row : ExecIo → String → String → Sessions → Sessions
fail_row io id why ss = sessions_or ss (
    update_session_ended io.end_fails
      (record {
        id = id;
        status = status_failed;
        ended_at = io.failed_at;
        error = why;
        duration_ms = pos 0;
        usage_json = "";
      })
      ss)

module _ (cfg : Config) (message_error : MessageError → String) (io : ExecIo) where
  -- The pump, by the runner.
  run_pump : Bytes → Daemon → Daemon × ExecEnd
  run_pump line d =
      let r = pump_agent_session cfg io.events (record {
        messages = d.messages;
        sessions = d.sessions;
        wire = line ∷ [];
        now = io.start_now;
      }) in
      (record d { sessions = r.0.sessions; messages = r.0.messages }, pumped r.0.wire r.1)

  written : Bytes → Result MessageError Messages → Daemon → Daemon × ExecEnd
  unfolding run_pump fail_row
  written line (err e) d = (
    record d {
      sessions =
          fail_row io cfg.session_id (str_append "persist session_started: " (message_error e))
            d.sessions;
    },
    unstored,
  )
  written line (ok ms) d =
      let stored : Daemon = record d { messages = ms } in
      let ran = run_pump line stored in if io.write_fails then (stored, client_gone) else ran

  stored : Envelope → Result EnvelopeError Bytes → Daemon → Daemon × ExecEnd
  unfolding written
  stored env (err e) d = (d, unbuilt)
  stored env (ok line) d =
      written line
        (append_message io.append_fails d.sessions
          (record {
            session_id = cfg.session_id;
            seq = env.seq;
            event_type = "session_started";
            ts = env.ts;
            envelope_json = line;
          })
          d.messages)
        d

  built : Builder × Result EnvelopeError Envelope → Daemon → Daemon × ExecEnd
  unfolding stored
  built (b, err e) d = (d, unbuilt)
  built (b, ok env) d = stored env (encode_line cfg.codec env) d

  -- Behind the registration: the backend, the headers and session_started.
  executed : String → Option String → Daemon → Daemon × ExecEnd
  unfolding built fail_row internal_problem invalid
  executed backend_type (some why) d = (
    record d {
      sessions = fail_row io cfg.session_id (str_append "backend.Execute: " why) d.sessions;
    },
    if is_client_backend_input_error why then invalid why else internal_problem,
  )
  executed backend_type none d =
      built
        (build_session_started cfg.codec
          (record { backend_type = backend_type; backend_session_id = ""; started_at = io.now })
          (new_builder cfg.session_id) io.start_now)
        d

  -- The deferred calls run last.
  released : Daemon × ExecEnd → Daemon × ExecEnd
  released (d, e) = (record d { registry = unregister cfg.session_id (io.meanwhile d.registry) }, e)

  inserted : String → Result SessionError (Session × Sessions) → Daemon → Daemon × ExecEnd
  unfolding executed released internal_problem
  inserted backend_type (err e) d = (d, internal_problem)
  inserted backend_type (ok (row, ss)) d = released (
      executed backend_type io.execute_error (record d {
        sessions = ss;
        registry = register cfg.session_id io.cancel_number d.registry;
      }))

  opened : String → ExecRequest → Factory → Daemon → Daemon × ExecEnd
  unfolding inserted internal_problem
  opened backend_type req (unknown_type why) d = (d, refused 404 unknown_backend why)
  opened backend_type req (unavailable why) d = (d, refused 503 backend_unavailable why)
  opened backend_type req broken d = (d, internal_problem)
  opened backend_type req made d =
      if not io.is_flusher || io.uuid_fails
      then (d, internal_problem)
      else inserted backend_type
          (insert_session io.insert_fails
            (record {
              id = cfg.session_id;
              backend_type = backend_type;
              backend_session_id = [];
              thread_name = req.thread_name;
              model = req.model;
              daemon_pid = io.daemon_pid;
              started_at = io.now;
            })
            d.sessions)
          d

  timed : String → ExecRequest → Result ExecError (Unit {0}) → Daemon → Daemon × ExecEnd
  unfolding opened invalid
  timed backend_type req (err e) d = (d, invalid (exec_error_text e))
  timed backend_type req (ok u) d = opened backend_type req io.factory d

  placed : String → ExecRequest → Option String → Daemon → Daemon × ExecEnd
  unfolding timed invalid
  placed backend_type req (some why) d = (d, invalid why)
  placed backend_type req none d =
      timed backend_type req
        (validate_exec_timeouts req.timeout_ms req.semantic_inactivity_timeout_ms req.max_turns) d

  on_body : String → ExecBody → Daemon → Daemon × ExecEnd
  unfolding placed invalid
  on_body backend_type too_large d =
      (d, refused 413 payload_too_large "request body exceeds the per-request size limit")
  on_body backend_type malformed d = (d, invalid "invalid JSON body")
  on_body backend_type trailing d = (d, invalid "trailing data after JSON body")
  on_body backend_type (decoded req) d =
      if is_blank (trim_space req.prompt)
      then (d, invalid "prompt must contain at least one non-whitespace character")
      else placed backend_type req (validate_exec_cwd io.stat req.cwd) d

  -- `Exec`, of the lower-case type of the URL and its text in quotes; `cfg` names the session by the
  -- uuid that the handler draws.
  unfoldable pub exec : String → String → Daemon → Daemon × ExecEnd
  unfolding on_body
  exec backend_type quoted d =
      if is_supported_type backend_type
      then on_body backend_type io.body d
      else (d, refused 404 unknown_backend (str_append "unknown agent type " quoted))
