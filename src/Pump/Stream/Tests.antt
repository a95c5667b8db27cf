-- ===== src/Pump/Stream/Tests.antt =====
-- Streams of the exec pump (Pump/Stream.antt) with a codec that writes one byte.
use meowth.Prelude.{
  ◌≡◌, refl, true, false, List, [], ◌∷◌, none, some, codes, bytes_eq, trim_space, pos,
}
use meowth.Envelope.{Codec, build_session_started, build_message, build_session_ended, encode_line}
use meowth.Envelope.Truncate.{truncate_message_content}
use meowth.Envelope.Wire.{status_from_agent_result}
use meowth.Store.Sessions.{
  Session, find, update_session_backend_session_id, update_session_ended, is_terminal,
  status_is_valid,
}
use meowth.Store.Messages.{append_message, has_key, event_type_is_valid}
use meowth.Pump.{
  AgentResult, Config, Io, Arrival, Ending, Event, arrival, result, persist_and_write, pump_message,
  drain, message_payload_from_agent,
}
use meowth.Pump.Stream.{Opening, pump_agent_session, loop, on_event, finalize, final_status}
use meowth.Pump.Stream.Order.{Delivered, origin, pump-Delivered}
use meowth.Pump.Stream.Outcome.{has_result, IsFinal, pump-returns}

abbrev codec : Codec
codec = record {
  marshal = λ p. some (123 ∷ 125 ∷ []);
  unmarshal_message = λ b. none;
  encode = λ e. some (e.seq ∷ []);
  decode = λ b. none;
}

abbrev config : Config
config = record {
  codec = codec;
  session_id = "s1";
  heartbeat_interval = 15000;
  text = λ e. "failed";
  marshal_usage = λ u. none;
}

abbrev session : Session
session = record {
  id = "s1";
  backend_type = "claude";
  backend_session_id = [];
  status = "running";
  started_at = 1;
  ended_at = none;
  thread_name = "";
  model = "";
  daemon_pid = 1;
  error = "";
  duration_ms = pos 0;
  usage_json = "";
}

abbrev opening : Opening
opening = record { messages = []; sessions = session ∷ []; wire = []; now = 1 }

abbrev io : Io
io = record { now = 2; append_fails = false; write_fails = false }

abbrev hello : Arrival
hello = record {
  message = record {
    kind = codes "text";
    content = codes "hello";
    tool = [];
    call_id = [];
    input = none;
    output = [];
    status = [];
    level = [];
    session_id = codes "b1";
  };
  update_fails = false;
  first = io;
  notice = io;
}

abbrev ending : Ending
ending = record {
  io = io;
  ended_at = 3;
  is_shutdown = false;
  update_fails = false;
  end_fails = false;
}

abbrev done : AgentResult
done = record {
  status = codes "completed";
  output = [];
  error = "";
  duration_ms = pos 2;
  session_id = [];
  usage = none;
}

abbrev events : List Event
events = arrival hello ending ∷ result (some done) (hello ∷ []) ending ∷ []

-- Two messages with the numbers 1 and 2, and the end of the session with 3.
three_lines :
    (pump_agent_session config events opening).0.wire ≡ (1 ∷ []) ∷ (2 ∷ []) ∷ (3 ∷ []) ∷ []
unfolding pump_agent_session loop on_event finalize pump_message drain persist_and_write
    append_message has_key event_type_is_valid build_session_started build_message
    build_session_ended encode_line truncate_message_content find update_session_ended is_terminal
    status_is_valid status_from_agent_result trim_space bytes_eq message_payload_from_agent
    update_session_backend_session_id final_status
three_lines = refl

pump-Delivered_example : Delivered (origin opening) (pump_agent_session config events opening)
pump-Delivered_example = pump-Delivered config events opening

pump-returns_example :
    IsFinal (pump_agent_session config events opening)
    × (has_result (pump_agent_session config events opening) ≡ true)
pump-returns_example = pump-returns config events opening refl
