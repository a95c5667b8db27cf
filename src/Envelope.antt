-- ===== src/Envelope.antt =====
-- The NDJSON envelopes: daemon/internal/envelope/envelope.go. The JSON codec of the standard
-- library is a parameter, `Codec`; times are unix milliseconds.
pub mod Tests
pub mod Numbers
pub mod Wire
pub mod Truncate
use Prim.Native.Nat.{bit_and, min}
use meowth.Prelude.{
  ℕ, zero, suc, ◌+◌, ◌-◌, ◌/◌, ◌^◌, Bool, true, false, ◌&&◌, ◌||◌, not, List, [], ◌∷◌, Option, none,
  some, String, str_eq, leb, ltb, ◌==◌, if◌then◌else◌, length, take, drop, Bytes, codes, has_prefix,
  Result, ok, err, ℤ,
}

abbrev pub schema_version : ℕ
schema_version = 1

abbrev pub max_line_bytes : ℕ
max_line_bytes = 1048576

abbrev pub truncation_headroom : ℕ
truncation_headroom = 4096

-- `Type` is a string; `IsValid` names the six of the schema.
unfoldable pub type_is_valid : String → Bool
type_is_valid t =
    str_eq t "session_started"
    || str_eq t "message"
    || str_eq t "usage"
    || str_eq t "error"
    || str_eq t "session_ended"
    || str_eq t "heartbeat"

pub record Envelope : Type 0 where
  pub v : ℤ
  pub seq : ℕ
  pub ts : ℕ
  pub session_id : String
  pub kind : String
  pub payload : Bytes

pub record SessionStartedPayload : Type 0 where
  pub backend_type : String
  pub backend_session_id : String
  pub started_at : ℕ

pub record MessagePayload : Type 0 where
  pub kind : Bytes
  pub content : Bytes
  pub tool : Bytes
  pub call_id : Bytes
  -- a map, by its JSON text; `none` is nil
  pub input : Option Bytes
  pub output : Bytes
  pub status : Bytes
  pub level : Bytes
  pub backend_session_id : Bytes

pub record UsagePerModel : Type 0 where
  pub input_tokens : ℤ
  pub output_tokens : ℤ
  pub cache_read_tokens : ℤ
  pub cache_write_tokens : ℤ

pub record SessionEndedPayload : Type 0 where
  pub status : String
  pub output_chars : ℕ
  pub error : String
  pub duration_ms : ℤ
  pub backend_session_id : Bytes
  pub usage : Option (List (String × UsagePerModel))

pub record ErrorPayload : Type 0 where
  pub code : String
  pub title : String
  pub detail : String
  pub retryable : Bool

-- What `json.Marshal` is given.
pub data Payload : Type 0 where
  session_started : SessionStartedPayload → Payload
  message : MessagePayload → Payload
  usage : List (String × UsagePerModel) → Payload
  error : ErrorPayload → Payload
  heartbeat : ℕ → Payload
  session_ended : SessionEndedPayload → Payload

pub record Codec : Type 0 where
  pub marshal : Payload → Option Bytes
  pub unmarshal_message : Bytes → Option MessagePayload
  -- `json.Encoder.Encode`, with its newline
  pub encode : Envelope → Option Bytes
  -- `Decode`: the envelope, and the offset behind its object
  pub decode : Bytes → Option (Envelope × ℕ)

pub data EnvelopeError : Type 0 where
  kind_required code_and_title_required status_required : EnvelopeError
  marshal_failed encode_failed redecode_failed : EnvelopeError
  carriage_return bom_not_permitted empty_line decode_failed trailing_data : EnvelopeError
  unknown_type : String → EnvelopeError
  unsupported_version : ℤ → EnvelopeError

pub record Builder : Type 0 where
  pub session_id : String
  pub next_seq : ℕ

abbrev pub new_builder : String → Builder
new_builder session_id = record { session_id = session_id; next_seq = 0 }

is_empty : Bytes → Bool
is_empty [] = true
is_empty (c ∷ s) = false

contains_byte : ℕ → Bytes → Bool
contains_byte c [] = false
contains_byte c (d ∷ s) = d == c || contains_byte c s

built : Builder → ℕ → String → Option Bytes → Builder × Result EnvelopeError Envelope
built b now kind none = (b, err marshal_failed)
built b now kind (some raw) = (
  record b { next_seq = b.next_seq + 1 },
  ok (record {
    v = ℤ.pos schema_version;
    seq = b.next_seq;
    ts = now;
    session_id = b.session_id;
    kind = kind;
    payload = raw;
  }),
)

module _ (codec : Codec) where
  -- `build`, and the exported constructors; a refused payload takes no sequence number.
  build : String → Payload → Builder → ℕ → Builder × Result EnvelopeError Envelope
  unfolding built
  build kind payload b now = built b now kind (codec.marshal payload)

  unfoldable pub build_session_started :
      SessionStartedPayload → Builder → ℕ → Builder × Result EnvelopeError Envelope
  unfolding build
  build_session_started p = build "session_started" (session_started p)

  unfoldable pub build_message :
      MessagePayload → Builder → ℕ → Builder × Result EnvelopeError Envelope
  unfolding build is_empty
  build_message p b now =
      if is_empty p.kind then (b, err kind_required) else build "message" (message p) b now

  unfoldable pub build_usage :
      List (String × UsagePerModel) → Builder → ℕ → Builder × Result EnvelopeError Envelope
  unfolding build
  build_usage p = build "usage" (usage p)

  unfoldable pub build_error : ErrorPayload → Builder → ℕ → Builder × Result EnvelopeError Envelope
  unfolding build
  build_error p b now =
      if str_eq p.code "" || str_eq p.title ""
      then (b, err code_and_title_required)
      else build "error" (error p) b now

  unfoldable pub build_heartbeat : ℕ → Builder → ℕ → Builder × Result EnvelopeError Envelope
  unfolding build
  build_heartbeat p = build "heartbeat" (heartbeat p)

  unfoldable pub build_session_ended :
      SessionEndedPayload → Builder → ℕ → Builder × Result EnvelopeError Envelope
  unfolding build
  build_session_ended p b now =
      if str_eq p.status ""
      then (b, err status_required)
      else build "session_ended" (session_ended p) b now

  checked : Option Bytes → Result EnvelopeError Bytes
  unfolding contains_byte
  checked none = err encode_failed
  checked (some out) = if contains_byte 13 out then err carriage_return else ok out

  unfoldable pub encode_line : Envelope → Result EnvelopeError Bytes
  unfolding checked
  encode_line env = checked (codec.encode env)
