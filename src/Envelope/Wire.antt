-- ===== src/Envelope/Wire.antt =====
-- Reading a wire line back, and the status of a result: `DecodeLine` and `StatusFromAgentResult`
-- of daemon/internal/envelope/envelope.go.
use meowth.Prelude.{
  ℕ, ◌≡◌, refl, Bool, false, ◌||◌, not, [], ◌∷◌, Option, none, some, String, ◌==◌, if◌then◌else◌,
  drop, every, has_prefix, bytes_eq, codes, trim_space, Bytes, Result, ok, err, ℤ, pos, negsuc,
}
use meowth.Envelope.{
  Envelope, Codec, EnvelopeError, bom_not_permitted, carriage_return, empty_line, decode_failed,
  trailing_data, unknown_type, unsupported_version, contains_byte, is_empty, type_is_valid,
  schema_version,
}

json_space : ℕ → Bool
json_space c = c == b' ' || c == 9 || c == 10

-- `onlyWhitespaceLeft`, behind the decoder's offset.
unfoldable pub only_whitespace_left : Bytes → ℕ → Bool
unfolding json_space
only_whitespace_left src offset = every json_space (drop offset src)

version_is_current : ℤ → Bool
version_is_current (pos n) = n == schema_version
version_is_current (negsuc n) = false

decoded : Bytes → Option (Envelope × ℕ) → Result EnvelopeError Envelope
unfolding version_is_current only_whitespace_left
decoded line none = err decode_failed
decoded line (some (env, offset)) =
    if not (only_whitespace_left line offset)
    then err trailing_data
    else if not (type_is_valid env.kind)
    then err (unknown_type env.kind)
    else if version_is_current env.v
    then ok env
    else err (unsupported_version env.v)

unfoldable pub decode_line : Codec → Bytes → Result EnvelopeError Envelope
unfolding decoded contains_byte is_empty
decode_line codec line =
    if has_prefix line (0xEF ∷ 0xBB ∷ 0xBF ∷ [])
    then err bom_not_permitted
    else if contains_byte 13 line
    then err carriage_return
    else if is_empty line
    then err empty_line
    else decoded line (codec.decode line)

-- `StatusFromAgentResult`: the status strings of a backend are ASCII.
unfoldable pub status_from_agent_result : Bytes → String
status_from_agent_result s =
    let t = trim_space s in
    if bytes_eq t (codes "completed")
    then "completed"
    else if bytes_eq t (codes "failed")
    then "failed"
    else if bytes_eq t (codes "aborted")
    then "aborted"
    else if bytes_eq t (codes "timeout")
    then "timeout"
    else if bytes_eq t (codes "cancelled")
    then "cancelled"
    else "failed"

padded_status : status_from_agent_result (codes " timeout ") ≡ "timeout"
unfolding status_from_agent_result trim_space bytes_eq
padded_status = refl
