-- ===== src/Envelope/Tests.antt =====
-- Truncations (Envelope/Truncate.antt) with a codec that writes a zero for each byte of the content
-- and of the output.
use meowth.Prelude.{
  ◌≡◌, refl, false, [], ◌∷◌, ◌++◌, Option, none, some, Bytes, codes, length, map, length-append,
  arith, ok, pos,
}
use meowth.Envelope.{Envelope, MessagePayload, Codec, Payload, message, encode_line, contains_byte}
use meowth.Envelope.Truncate.{safe_truncate_runes, is_utf8_rune_boundary, line_of, shrink, rounds}
use meowth.Envelope.Truncate.Enough.{IsBounded, Fitted, rounds_are_enough}

-- An e with an acute accent is two bytes, and both go.
abbrev cafe : Bytes
cafe = 99 ∷ 97 ∷ 102 ∷ 0xC3 ∷ 0xA9 ∷ []

cafe_cut : safe_truncate_runes cafe 4 ≡ 99 ∷ 97 ∷ 102 ∷ []
unfolding safe_truncate_runes is_utf8_rune_boundary
cafe_cut = refl

abbrev zeros : Bytes → Bytes
zeros s = map (λ c. 0) s

abbrev marshal : Payload → Option Bytes
marshal (message p) = some (zeros (p.content ++ p.output))
marshal _ = none

abbrev codec : Codec
codec = record {
  marshal = marshal;
  unmarshal_message = λ b. none;
  encode = λ e. some (zeros e.payload);
  decode = λ b. none;
}

abbrev envelope : Envelope
envelope = record { v = pos 1; seq = 1; ts = 5; session_id = "s1"; kind = "message"; payload = [] }

abbrev payload : MessagePayload
payload = record {
  kind = codes "text";
  content = codes "hello";
  tool = [];
  call_id = [];
  input = none;
  output = cafe;
  status = [];
  level = [];
  backend_session_id = [];
}

no_return : (s : Bytes) → contains_byte 13 (zeros s) ≡ false
unfolding contains_byte
no_return [] = refl
no_return (c ∷ s) = no_return s

length-zeros : (s : Bytes) → length (zeros s) ≡ length s
length-zeros [] = refl
length-zeros (c ∷ s) = omega (arith, length-zeros s)

line_of-eq :
    (q : MessagePayload) → line_of codec envelope q ≡ ok (zeros (zeros (q.content ++ q.output)))
unfolding line_of encode_line
line_of-eq q = rw (no_return (zeros (q.content ++ q.output))) refl

payload-IsBounded : IsBounded codec envelope 0 payload
unfolding IsBounded
payload-IsBounded q h = (
  zeros (zeros (q.content ++ q.output)),
  line_of-eq q,
  omega (
    arith,
    length-zeros (zeros (q.content ++ q.output)),
    length-zeros (q.content ++ q.output),
    length-append q.content q.output,
  ),
)

rounds_are_enough_example : Fitted codec envelope rounds 0 payload
rounds_are_enough_example =
    rounds_are_enough codec envelope 0 (omega arith) payload payload-IsBounded

payload_shrunk : shrink codec rounds 0 envelope payload ≡ ok payload
unfolding shrink
payload_shrunk = rw (line_of-eq payload) refl
