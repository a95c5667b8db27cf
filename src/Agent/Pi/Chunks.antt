-- ===== src/Agent/Pi/Chunks.antt =====
-- `emitChunkedMessageText` of daemon/pkg/agent/pi.go: a long text as messages that end at rune
-- boundaries.
use Prim.Native.Nat.{bit_and}
use meowth.Prelude.{
  ℕ, zero, suc, ◌+◌, ◌≤◌, ◌<◌, ◌≡◌, refl, ap, ◌∙◌, Bool, List, [], ◌∷◌, ◌++◌, take-append-drop,
  length-drop, append-nil, leb, ◌==◌, if◌then◌else◌, length, take, drop, Bytes, concat, arith,
  Bool-cases, inl, inr,
}

abbrev pub max_chunk_bytes : ℕ
max_chunk_bytes = 65536

unfoldable pub is_continuation : ℕ → Bool
is_continuation c = bit_and c 0xC0 == 0x80

first_or : ℕ → Bytes → ℕ
first_or d [] = d
first_or d (c ∷ s) = c

-- `for cut > 0 && (text[cut]&0xC0) == 0x80 { cut-- }`
cut_back : Bytes → ℕ → ℕ
unfolding first_or
cut_back text zero = zero
cut_back text (suc i) =
    let rest = cut_back text i in
    if is_continuation (first_or 0 (drop (suc i) text)) then rest else suc i

-- How many continuation bytes a text begins with.
continuations : Bytes → ℕ
continuations [] = 0
continuations (c ∷ s) = let rest = continuations s in if is_continuation c then suc rest else 0

-- The length of the first chunk of a text that is longer than one.
cut_at : ℕ → Bytes → ℕ
unfolding cut_back continuations
cut_at most text =
    let back = cut_back text most in if back == 0 then 1 + continuations (drop 1 text) else back

unfoldable pub cut : Bytes → ℕ
unfolding cut_at
cut text = cut_at max_chunk_bytes text

-- The contents of the messages. Every chunk takes a byte at least, so the length is fuel enough.
unfoldable pub chunks_from : ℕ → Bytes → List Bytes
chunks_from zero text = []
chunks_from (suc fuel) text =
    let rest = chunks_from fuel (drop (cut text) text) in
    if leb (length text) max_chunk_bytes then text ∷ [] else take (cut text) text ∷ rest

unfoldable pub emit_chunked_message_text : Bytes → List Bytes
unfolding chunks_from
emit_chunked_message_text [] = []
emit_chunked_message_text (c ∷ text) = chunks_from (length (c ∷ text)) (c ∷ text)

cut_at-pos : (most : ℕ) (text : Bytes) → 0 < cut_at most text
unfolding cut_at
cut_at-pos most text = ground arith

cut-pos : (text : Bytes) → 0 < cut text
unfolding cut
cut-pos text = cut_at-pos max_chunk_bytes text

chunks_from-concat :
    (fuel : ℕ) (text : Bytes)
    → length text ≤ fuel
    → 0 < fuel
    → concat (chunks_from fuel text) ≡ text
unfolding chunks_from concat
chunks_from-concat zero text h p = absurd (omega arith)
chunks_from-concat (suc fuel) text h p = elim (Bool-cases (leb (length text) max_chunk_bytes)) [
  | inl short ↦ rw short (append-nil text)
  | inr long ↦ rw long (
      ap (λ r. take (cut text) text ++ r)
        (chunks_from-concat fuel (drop (cut text) text)
          (omega (arith, length-drop (cut text) text, cut-pos text)) (ground (arith, long, h)))
      ∙ take-append-drop (cut text) text)
]

-- The messages together carry the whole text.
pub emit_chunked-concat : (text : Bytes) → concat (emit_chunked_message_text text) ≡ text
unfolding emit_chunked_message_text concat
emit_chunked-concat [] = refl
emit_chunked-concat (c ∷ text) =
    chunks_from-concat (length (c ∷ text)) (c ∷ text) (omega arith) (omega arith)
