-- ===== src/Pump/Stream.antt =====
-- The loop of the exec pump and its two ends, `finalizeStream` and `abortStream`:
-- daemon/internal/server/exec_pump.go.
pub mod Tests
pub mod Order
pub mod Outcome
use meowth.Prelude.{
  ℕ, zero, ◌+◌, ◌-◌, Bool, true, false, ◌&&◌, ◌||◌, not, List, [], ◌∷◌, ◌++◌, Option, none, some,
  String, str_eq, str_append, ltb, ◌==◌, if◌then◌else◌, length, Bytes, codes, Result, ok, err, ℤ,
  pos,
}
use meowth.Envelope.{
  Envelope, Builder, EnvelopeError, SessionEndedPayload, SessionStartedPayload, UsagePerModel,
  new_builder, build_session_started, build_heartbeat, build_session_ended,
}
use meowth.Envelope.Wire.{status_from_agent_result}
use meowth.Store.Sessions.{
  Sessions, SessionError, update_session_backend_session_id, update_session_ended,
}
use meowth.Store.Messages.{Messages}
use meowth.Pump.{
  AgentResult, PumpError, append_failed, encode_line_failed, build_failed, PumpResult, Config, Pump,
  Io, Arrival, Ending, Event, cancelled, tick, arrival, closed, result, is_empty, convert_usage,
  sessions_or, persist_and_write, stamp, pump_message, drain,
}

or_empty : Option String → String
or_empty none = ""
or_empty (some u) = u

failed_result : String → AgentResult
failed_result e = record {
  status = codes "failed";
  output = [];
  error = e;
  duration_ms = pos 0;
  session_id = [];
  usage = none;
}

client_disconnected : AgentResult
client_disconnected = record {
  status = codes "cancelled";
  output = [];
  error = "client disconnected";
  duration_ms = pos 0;
  session_id = [];
  usage = none;
}

-- The status and the error that the stream ends with: a shutdown turns a cancelled or an unnamed
-- status into aborted.
unfoldable pub final_status : Bool → Bytes → String
final_status is_shutdown raw =
    let status = status_from_agent_result raw in
    if is_shutdown && (str_eq status "cancelled" || is_empty raw) then "aborted" else status

unfoldable pub final_error : Bool → Bytes → String → String
final_error is_shutdown raw e =
    if is_shutdown && (str_eq (status_from_agent_result raw) "cancelled" || is_empty raw)
    then if str_eq e "" then "daemon shutdown" else e
    else e

unfoldable pub final_backend_id : Bytes → Bytes → Bytes
final_backend_id seen id = if is_empty id then seen else id

module _ (cfg : Config) where
  -- `abortStream`
  unfoldable pub abort : Ending → Pump → PumpError → Pump × PumpResult
  abort end s e = (
    record s {
      sessions = sessions_or s.sessions (
          update_session_ended end.end_fails
            (record {
              id = cfg.session_id;
              status = "failed";
              ended_at = end.ended_at;
              error = str_append "persist failure: " (cfg.text e);
              duration_ms = pos 0;
              usage_json = "";
            })
            s.sessions);
    },
    record { status = "failed"; error = cfg.text e; persist_err = some e },
  )

  -- The resume pointer of the row, unless a message has set it.
  late_backend_id : Ending → Bytes → Pump → Pump
  late_backend_id end id s =
      if not (is_empty id) && is_empty s.backend_session_id
      then record s {
        sessions =
            sessions_or s.sessions
              (update_session_backend_session_id end.update_fails cfg.session_id id s.sessions);
      }
      else s

  close_row : Ending → AgentResult → Pump × Option PumpError → Pump × PumpResult
  unfolding abort or_empty
  close_row end r (s, some e) = abort end s e
  close_row end r (s, none) =
      let status = final_status end.is_shutdown r.status in
      let e = final_error end.is_shutdown r.status r.error in
      (
        record s {
          sessions = sessions_or s.sessions (
              update_session_ended end.end_fails
                (record {
                  id = cfg.session_id;
                  status = status;
                  ended_at = end.ended_at;
                  error = e;
                  duration_ms = r.duration_ms;
                  usage_json = or_empty (cfg.marshal_usage (convert_usage r.usage));
                })
                s.sessions);
        },
        record { status = status; error = e; persist_err = none },
      )

  emit_end :
      Ending → AgentResult → Pump → Builder × Result EnvelopeError Envelope → Pump × PumpResult
  unfolding close_row
  emit_end end r s (b, err e) = (
    record s { builder = b },
    record {
      status = "failed";
      error = str_append "build session_ended: " (cfg.text (build_failed e));
      persist_err = some (build_failed e);
    },
  )
  emit_end end r s (b, ok env) = close_row end r (
      stamp cfg end.io.now
        (persist_and_write cfg end.io env "session_ended" (record s { builder = b })))

  ended_payload : Ending → AgentResult → Bytes → SessionEndedPayload
  ended_payload end r seen = record {
    status = final_status end.is_shutdown r.status;
    output_chars = length r.output;
    error = final_error end.is_shutdown r.status r.error;
    duration_ms = r.duration_ms;
    backend_session_id = final_backend_id seen r.session_id;
    usage = convert_usage r.usage;
  }

  -- `finalizeStream`
  unfoldable pub finalize : Ending → AgentResult → Pump → Pump × PumpResult
  unfolding emit_end late_backend_id ended_payload
  finalize end r s = emit_end end r (late_backend_id end r.session_id s) (
      build_session_ended cfg.codec (ended_payload end r s.backend_session_id) s.builder end.io.now)

  -- What an event leaves: a stream that goes on, or its end.
  going_on : Pump → Pump × Option PumpResult
  going_on s = (s, none)

  over : Pump × PumpResult → Pump × Option PumpResult
  over (s, r) = (s, some r)

  go_on_or_abort : Ending → Pump × Option PumpError → Pump × Option PumpResult
  unfolding over
  go_on_or_abort end (s, none) = (s, none)
  go_on_or_abort end (s, some e) = over (abort end s e)

  emit_heartbeat :
      Io → Ending → Pump → Builder × Result EnvelopeError Envelope → Pump × Option PumpResult
  unfolding go_on_or_abort
  emit_heartbeat io end s (b, err e) = (record s { builder = b }, none)
  emit_heartbeat io end s (b, ok env) =
      go_on_or_abort end
        (stamp cfg io.now (persist_and_write cfg io env "heartbeat" (record s { builder = b })))

  on_tick : Io → Ending → Pump → Pump × Option PumpResult
  unfolding emit_heartbeat
  on_tick io end s =
      if ltb (io.now - s.last_emit) cfg.heartbeat_interval
      then (s, none)
      else emit_heartbeat io end s
          (build_heartbeat cfg.codec (io.now - s.last_emit) s.builder io.now)

  or_disconnected : Option AgentResult → AgentResult
  unfolding client_disconnected
  or_disconnected none = client_disconnected
  or_disconnected (some r) = r

  or_without_result : Option AgentResult → AgentResult
  unfolding failed_result
  or_without_result none = failed_result "backend exited without a Result"
  or_without_result (some r) = r

  finalize_drained : Ending → AgentResult → Pump × Option PumpError → Pump × PumpResult
  finalize_drained end r (s, some e) = abort end s e
  finalize_drained end r (s, none) = finalize end r s

  -- ctx.Done looks at no error of its drain.
  finalize_anyway : Ending → AgentResult → Pump × Option PumpError → Pump × PumpResult
  finalize_anyway end r (s, e) = finalize end r s

  -- One turn of the `select`.
  unfoldable pub on_event : Event → Pump → Pump × Option PumpResult
  unfolding over go_on_or_abort on_tick or_disconnected or_without_result finalize_drained
      finalize_anyway failed_result
  on_event (cancelled buffered r end) s =
      over (finalize_anyway end (or_disconnected r) (drain cfg buffered s))
  on_event (tick io end) s = on_tick io end s
  on_event (arrival a end) s = go_on_or_abort end (pump_message cfg a s)
  on_event (closed r end) s = over (finalize end (or_without_result r) s)
  on_event (result none buffered end) s =
      over (finalize end (failed_result "backend Result channel closed empty") s)
  on_event (result (some r) buffered end) s = over (finalize_drained end r (drain cfg buffered s))

  continue_with :
      (Pump → Pump × Option PumpResult) → Pump × Option PumpResult → Pump × Option PumpResult
  continue_with next (s, some r) = (s, some r)
  continue_with next (s, none) = next s

  -- The `for` loop over the events so far; `none` while it waits for the next one.
  unfoldable pub loop : List Event → Pump → Pump × Option PumpResult
  unfolding continue_with
  loop [] s = (s, none)
  loop (e ∷ es) s = continue_with (loop es) (on_event e s)

-- What the caller has set up when it starts the pump: the rows, and an open stream.
pub record Opening : Type 0 where
  pub messages : Messages
  pub sessions : Sessions
  pub wire : List Bytes
  pub now : ℕ

default_heartbeat_interval : ℕ
default_heartbeat_interval = 15000

with_interval : Config → Config
unfolding default_heartbeat_interval
with_interval cfg = record cfg {
  heartbeat_interval =
      if cfg.heartbeat_interval == 0 then default_heartbeat_interval else cfg.heartbeat_interval;
}

no_payload : SessionStartedPayload
no_payload = record { backend_type = ""; backend_session_id = ""; started_at = 0 }

start : Config → Opening → Builder → Pump
start cfg o b = record {
  builder = b;
  messages = o.messages;
  sessions = o.sessions;
  wire = o.wire;
  last_emit = o.now;
  backend_session_id = [];
}

primed :
    Config
    → List Event
    → Opening
    → Builder × Result EnvelopeError Envelope
    → Pump × Option PumpResult
unfolding start
primed cfg es o (b, err e) = (
  start cfg o b,
  some (record {
    status = "failed";
    error = str_append "pump: prime builder: " (cfg.text (build_failed e));
    persist_err = some (build_failed e);
  }),
)
primed cfg es o (b, ok env) = loop cfg es (start cfg o b)

-- `pumpAgentSession`: the number 0 is the caller's session_started.
unfoldable pub pump_agent_session : Config → List Event → Opening → Pump × Option PumpResult
unfolding primed with_interval no_payload
pump_agent_session cfg es o =
    primed (with_interval cfg) es o
      (build_session_started cfg.codec no_payload (new_builder cfg.session_id) o.now)
