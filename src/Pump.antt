-- ===== src/Pump.antt =====
-- The exec pump: daemon/internal/server/exec_pump.go. One stream of events, as the `select` of the
-- loop chooses them, with what the clock, the driver and the client's connection answer to each.
pub mod Stream
pub mod Ledgers
use meowth.Prelude.{
  ℕ, zero, ◌+◌, ◌-◌, Bool, true, false, ◌&&◌, ◌||◌, not, List, [], ◌∷◌, ◌++◌, Option, none, some,
  String, str_eq, str_append, ltb, ◌==◌, if◌then◌else◌, length, map, Bytes, Result, ok, err, ℤ, pos,
}
use meowth.Envelope.{
  Envelope, Builder, Codec, EnvelopeError, MessagePayload, ErrorPayload, UsagePerModel,
  SessionEndedPayload, new_builder, build_session_started, build_message, build_error,
  build_heartbeat, build_session_ended, encode_line,
}
use meowth.Envelope.Truncate.{truncate_message_content}
use meowth.Envelope.Wire.{status_from_agent_result}
use meowth.Store.Sessions.{
  Sessions, SessionError, update_session_backend_session_id, update_session_ended, ended,
}
use meowth.Store.Messages.{MessageRow, Messages, MessageError, append_message}

-- agent.Message, agent.TokenUsage and agent.Result.
pub record AgentMessage : Type 0 where
  pub kind : Bytes
  pub content : Bytes
  pub tool : Bytes
  pub call_id : Bytes
  pub input : Option Bytes
  pub output : Bytes
  pub status : Bytes
  pub level : Bytes
  pub session_id : Bytes

pub record TokenUsage : Type 0 where
  pub input_tokens : ℤ
  pub output_tokens : ℤ
  pub cache_read_tokens : ℤ
  pub cache_write_tokens : ℤ

pub record AgentResult : Type 0 where
  pub status : Bytes
  pub output : Bytes
  pub error : String
  pub duration_ms : ℤ
  pub session_id : Bytes
  pub usage : Option (List (String × TokenUsage))

pub data PumpError : Type 0 where
  encode_line_failed : EnvelopeError → PumpError
  append_failed : MessageError → PumpError
  build_failed : EnvelopeError → PumpError

pub record PumpResult : Type 0 where
  pub status : String
  pub error : String
  pub persist_err : Option PumpError

-- What does not change during the stream; `Result.Error` texts of the pump's own errors come from
-- `text`.
pub record Config : Type 0 where
  pub codec : Codec
  pub session_id : String
  pub heartbeat_interval : ℕ
  pub text : PumpError → String
  pub marshal_usage : Option (List (String × UsagePerModel)) → Option String

pub record Pump : Type 0 where
  pub builder : Builder
  pub messages : Messages
  pub sessions : Sessions
  pub wire : List Bytes
  pub last_emit : ℕ
  pub backend_session_id : Bytes

-- What one emission meets.
pub record Io : Type 0 where
  pub now : ℕ
  pub append_fails : Bool
  pub write_fails : Bool

-- One message from the backend, with what its two possible emissions meet.
pub record Arrival : Type 0 where
  pub message : AgentMessage
  pub update_fails : Bool
  pub first : Io
  pub notice : Io

-- What the end of the stream meets: an `Io` for its envelope and two updates of the row.
pub record Ending : Type 0 where
  pub io : Io
  pub ended_at : ℕ
  pub is_shutdown : Bool
  pub update_fails : Bool
  pub end_fails : Bool

pub data Event : Type 0 where
  -- ctx.Done: what the drain reads before its deadline, and the result if it comes in time
  cancelled : List Arrival → Option AgentResult → Ending → Event
  tick : Io → Ending → Event
  arrival : Arrival → Ending → Event
  -- the Messages channel is closed; the result if it comes in time
  closed : Option AgentResult → Ending → Event
  -- the result, or a closed empty channel, and what the drain reads
  result : Option AgentResult → List Arrival → Ending → Event

unfoldable pub is_empty : Bytes → Bool
is_empty [] = true
is_empty (c ∷ s) = false

unfoldable pub message_payload_from_agent : AgentMessage → MessagePayload
message_payload_from_agent m = record {
  kind = m.kind;
  content = m.content;
  tool = m.tool;
  call_id = m.call_id;
  input = m.input;
  output = m.output;
  status = m.status;
  level = m.level;
  backend_session_id = m.session_id;
}

unfoldable pub convert_usage :
    Option (List (String × TokenUsage)) → Option (List (String × UsagePerModel))
convert_usage none = none
convert_usage (some us) = some (
    map
      (λ (e : String × TokenUsage).
        let (k, u) = e in
        (
          k,
          record {
            input_tokens = u.input_tokens;
            output_tokens = u.output_tokens;
            cache_read_tokens = u.cache_read_tokens;
            cache_write_tokens = u.cache_write_tokens;
          },
        ))
      us)

unfoldable pub sessions_or : Sessions → Result SessionError Sessions → Sessions
sessions_or ss (ok ss') = ss'
sessions_or ss (err e) = ss

module _ (cfg : Config) where
  row_of : Envelope → String → Bytes → MessageRow
  row_of env event_type line = record {
    session_id = cfg.session_id;
    seq = env.seq;
    event_type = event_type;
    ts = env.ts;
    envelope_json = line;
  }

  appended : Io → Bytes → Pump → Result MessageError Messages → Pump × Option PumpError
  appended io line s (err e) = (s, some (append_failed e))
  appended io line s (ok ms) = (
    record s { messages = ms; wire = if io.write_fails then s.wire else s.wire ++ line ∷ [] },
    none,
  )

  encoded : Io → Envelope → String → Pump → Result EnvelopeError Bytes → Pump × Option PumpError
  unfolding appended row_of
  encoded io env event_type s (err e) = (s, some (encode_line_failed e))
  encoded io env event_type s (ok line) =
      appended io line s
        (append_message io.append_fails s.sessions (row_of env event_type line) s.messages)

  -- `persistAndWrite`: the row first, then the line; a failed write is the client's leaving.
  unfoldable pub persist_and_write : Io → Envelope → String → Pump → Pump × Option PumpError
  unfolding encoded
  persist_and_write io env event_type s = encoded io env event_type s (encode_line cfg.codec env)

  -- Keep the time of an emission that went through.
  unfoldable pub stamp : ℕ → Pump × Option PumpError → Pump × Option PumpError
  stamp now (s, none) = (record s { last_emit = now }, none)
  stamp now (s, some e) = (s, some e)

  -- The first backend session id that a message carries.
  note_backend_id : Arrival → Pump → Pump
  unfolding is_empty sessions_or
  note_backend_id a s =
      if not (is_empty a.message.session_id) && is_empty s.backend_session_id
      then record s {
        backend_session_id = a.message.session_id;
        sessions = sessions_or s.sessions (
            update_session_backend_session_id a.update_fails cfg.session_id a.message.session_id
              s.sessions);
      }
      else s

  emit_notice : Arrival → Pump → Builder × Result EnvelopeError Envelope → Pump × Option PumpError
  emit_notice a s (b, err e) = (record s { builder = b }, none)
  emit_notice a s (b, ok env) = persist_and_write a.notice env "error" (record s { builder = b })

  after_message : Arrival → Option ErrorPayload → Pump × Option PumpError → Pump × Option PumpError
  unfolding emit_notice
  after_message a notice (s, some e) = (s, some e)
  after_message a none (s, none) = (s, none)
  after_message a (some p) (s, none) =
      emit_notice a s (build_error cfg.codec p s.builder a.notice.now)

  emit_truncated :
      Arrival
      → Pump
      → Result EnvelopeError (Envelope × Option ErrorPayload)
      → Pump × Option PumpError
  unfolding after_message stamp
  emit_truncated a s (err e) = (s, none)
  emit_truncated a s (ok (env, notice)) =
      after_message a notice (stamp a.first.now (persist_and_write a.first env "message" s))

  emit_built : Arrival → Pump → Builder × Result EnvelopeError Envelope → Pump × Option PumpError
  unfolding emit_truncated
  emit_built a s (b, err e) = (record s { builder = b }, none)
  emit_built a s (b, ok env) =
      emit_truncated a (record s { builder = b }) (truncate_message_content cfg.codec env)

  -- One message, in the loop and in a drain alike.
  unfoldable pub pump_message : Arrival → Pump → Pump × Option PumpError
  unfolding emit_built note_backend_id
  pump_message a s =
      let s' = note_backend_id a s in
      emit_built a s'
        (build_message cfg.codec (message_payload_from_agent a.message) s'.builder a.first.now)

  then_drain : (Pump → Pump × Option PumpError) → Pump × Option PumpError → Pump × Option PumpError
  then_drain next (s, some e) = (s, some e)
  then_drain next (s, none) = next s

  -- `drainRemainingMessages`, over what the channel gives before the deadline.
  unfoldable pub drain : List Arrival → Pump → Pump × Option PumpError
  unfolding then_drain
  drain [] s = (s, none)
  drain (a ∷ rest) s = then_drain (drain rest) (pump_message a s)
