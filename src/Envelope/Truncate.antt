-- ===== src/Envelope/Truncate.antt =====
-- The cap of a message line: `TruncateMessageContent` of daemon/internal/envelope/envelope.go.
pub mod Runes
pub mod Fits
pub mod Enough
use Prim.Native.Nat.{bit_and, min}
use meowth.Prelude.{
  ℕ, zero, suc, ◌+◌, ◌-◌, ◌/◌, Bool, true, false, ◌||◌, not, List, [], ◌∷◌, Option, none, some,
  String, str_eq, leb, ltb, ◌==◌, if◌then◌else◌, length, take, Bytes, Result, ok, err, ◌>>=◌,
}
use meowth.Envelope.{
  Envelope, MessagePayload, ErrorPayload, Payload, message, Codec, EnvelopeError, marshal_failed,
  redecode_failed, encode_line, max_line_bytes, truncation_headroom,
}

-- `s[i]`, 0 out of range.
byte_at : Bytes → ℕ → ℕ
byte_at [] i = 0
byte_at (c ∷ s) zero = c
byte_at (c ∷ s) (suc i) = byte_at s i

-- A UTF-8 continuation byte.
is_continuation : ℕ → Bool
is_continuation c = bit_and c 0xC0 == 0x80

unfoldable pub is_utf8_rune_boundary : Bytes → ℕ → Bool
unfolding byte_at is_continuation
is_utf8_rune_boundary s i =
    if i == 0 || i == length s then true else not (is_continuation (byte_at s i))

-- The loop `for i := n; i > 0; i--`.
walk_back : Bytes → ℕ → Bytes
unfolding is_utf8_rune_boundary
walk_back s zero = []
walk_back s (suc i) =
    let rest = walk_back s i in if is_utf8_rune_boundary s (suc i) then take (suc i) s else rest

unfoldable pub safe_truncate_runes : Bytes → ℕ → Bytes
unfolding walk_back
safe_truncate_runes s n = if leb (length s) n then s else walk_back s n

-- Half the length, at most the budget.
keep : Bytes → ℕ
keep s = min (length s / 2) (max_line_bytes - truncation_headroom)

has_input : Option Bytes → Bool
has_input none = false
has_input (some i) = true

-- One round of the `switch`; `none` is its early return.
unfoldable pub trim_step : ℕ → MessagePayload → Option MessagePayload
unfolding keep has_input safe_truncate_runes
trim_step attempt p =
    if ltb 0 (length p.content)
    then some (record p { content = safe_truncate_runes p.content (keep p.content) })
    else if ltb 0 (length p.output)
    then some (record p { output = safe_truncate_runes p.output (keep p.output) })
    else if has_input p.input
    then some (record p { input = none })
    else if ltb 0 attempt
    then none
    else some p

unfoldable pub or_marshal_failed : Option Bytes → Result EnvelopeError Bytes
or_marshal_failed none = err marshal_failed
or_marshal_failed (some raw) = ok raw

abbrev pub fits : Bytes → Bool
fits line = leb (length line) max_line_bytes

abbrev pub truncation_notice : ErrorPayload
truncation_notice = record {
  code = "message_truncated";
  title = "Message content truncated";
  detail =
      "the upstream backend produced a single message that exceeded the daemon's 1 MiB per-line cap; later content has been dropped";
  retryable = false;
}

-- The rounds of `shrinkMessagePayload`.
abbrev pub rounds : ℕ
rounds = 32

module _ (codec : Codec) where
  unfoldable pub line_of : Envelope → MessagePayload → Result EnvelopeError Bytes
  unfolding or_marshal_failed
  line_of env p = do
    raw ← or_marshal_failed (codec.marshal (message p))
    encode_line codec (record env { payload = raw })

  -- `shrinkMessagePayload`, with the rounds that are left and the number of the round.
  unfoldable pub shrink : ℕ → ℕ → Envelope → MessagePayload → Result EnvelopeError MessagePayload
  unfolding line_of trim_step
  shrink zero attempt env p = ok p
  shrink (suc left) attempt env p = do
    line ← line_of env p
    let go_on : Result EnvelopeError MessagePayload = elim (trim_step attempt p) [
      | none ↦ ok p
      | some q ↦ shrink left (attempt + 1) env q
    ]
    if fits line then ok p else go_on

  unfoldable pub reread : Option MessagePayload → Result EnvelopeError MessagePayload
  reread none = err redecode_failed
  reread (some p) = ok p

  unfoldable pub overlong : Envelope → Result EnvelopeError (Envelope × Option ErrorPayload)
  unfolding reread or_marshal_failed
  overlong env = do
    p ← reread (codec.unmarshal_message env.payload)
    q ← shrink rounds 0 env p
    raw ← or_marshal_failed (codec.marshal (message q))
    ok (record env { payload = raw }, some truncation_notice)

  -- `TruncateMessageContent`: the envelope, and the notice to emit after it if it was truncated.
  unfoldable pub truncate_message_content :
      Envelope → Result EnvelopeError (Envelope × Option ErrorPayload)
  unfolding overlong
  truncate_message_content env =
      if not (str_eq env.kind "message")
      then ok (env, none)
      else do line ← encode_line codec env; if fits line then ok (env, none) else overlong env
