-- ===== src/Envelope/Truncate/Enough.antt =====
-- The 32 rounds of `shrinkMessagePayload` (Envelope/Truncate.antt) are enough for a message whose
-- bulk is its content and its output.
use native.Mathlib.Decide.{dec_lt}
use meowth.Prelude.{
  ℕ, zero, suc, ◌+◌, ◌-◌, ◌*◌, ◌/◌, ◌≤◌, ◌<◌, ◌≡◌, refl, ap, ◌∙◌, false, some, length, Bytes, arith,
  Bool-cases, inl, inr, ok,
}
use meowth.Envelope.{Envelope, MessagePayload, Codec, max_line_bytes, truncation_headroom}
use meowth.Envelope.Truncate.{safe_truncate_runes, keep, trim_step, line_of, fits, shrink, rounds}
use meowth.Envelope.Truncate.Runes.{length-safe_truncate_runes}
use meowth.Envelope.Truncate.Fits.{IsTrimmed, IsTrimmed-refl, IsTrimmed-trans, step-IsTrimmed}

abbrev two_to : ℕ → ℕ
two_to zero = 1
two_to (suc m) = two_to m + two_to m

-- Every trimmed form of `p` encodes, to at most six bytes for each byte of the content and of the
-- output (a `\u00XX` escape) and `frame` bytes for all the rest.
unfoldable pub IsBounded : Codec → Envelope → ℕ → MessagePayload → Type 0
IsBounded codec env frame p =
    (q : MessagePayload)
    → IsTrimmed p q
    → (line : Bytes) × (line_of codec env q ≡ ok line)
      × (length line ≤ frame + 6 * (length q.content + length q.output))

module _ (codec : Codec) (env : Envelope) where
  -- The loop ends with a message whose line is within the cap.
  pub record Fitted (left attempt : ℕ) (p : MessagePayload) : Type 0 where
    pub result : MessagePayload
    pub line : Bytes
    pub returns : shrink codec left attempt env p ≡ ok result
    pub encodes : line_of codec env result ≡ ok line
    pub within : length line ≤ max_line_bytes

  stop :
      (left attempt : ℕ) (p : MessagePayload) (line : Bytes)
      → line_of codec env p ≡ ok line
      → length line ≤ max_line_bytes
      → Fitted (suc left) attempt p
  unfolding shrink
  stop left attempt p line e h = record {
    result = p;
    line = line;
    returns = rw e (ground (arith, h));
    encodes = e;
    within = h;
  }

  go_on :
      (left attempt : ℕ) (p u : MessagePayload) (line : Bytes)
      → line_of codec env p ≡ ok line
      → fits line ≡ false
      → trim_step attempt p ≡ some u
      → Fitted left (attempt + 1) u
      → Fitted (suc left) attempt p
  unfolding shrink
  go_on left attempt p u line e big t f = record {
    result = f.result;
    line = f.line;
    returns = rw (e, big, t) f.returns;
    encodes = f.encodes;
    within = f.within;
  }

  -- The measures of the two bulk fields after a round.
  content_round :
      (attempt : ℕ) (p : MessagePayload)
      → 0 < length p.content
      → (u : MessagePayload) × (trim_step attempt p ≡ some u)
        × (u.output ≡ p.output)
        × (length u.content ≤ length p.content / 2)
        × (length u.content ≤ max_line_bytes - truncation_headroom)
  unfolding trim_step
  content_round attempt p h = (
    record p { content = safe_truncate_runes p.content (keep p.content) },
    ground (arith, h),
    refl,
    unfold keep in omega (arith, length-safe_truncate_runes p.content (keep p.content)),
    unfold keep in omega (arith, length-safe_truncate_runes p.content (keep p.content)),
  )

  output_round :
      (attempt : ℕ) (p : MessagePayload)
      → length p.content ≡ 0
      → 0 < length p.output
      → (u : MessagePayload) × (trim_step attempt p ≡ some u)
        × (u.content ≡ p.content)
        × (length u.output ≤ length p.output / 2)
        × (length u.output ≤ max_line_bytes - truncation_headroom)
  unfolding trim_step
  output_round attempt p e h = (
    record p { output = safe_truncate_runes p.output (keep p.output) },
    ground (arith, h, e),
    refl,
    unfold keep in omega (arith, length-safe_truncate_runes p.output (keep p.output)),
    unfold keep in omega (arith, length-safe_truncate_runes p.output (keep p.output)),
  )

  module _ (frame : ℕ) (room : frame + 12288 ≤ max_line_bytes) where
    IsBounded-step :
        (p u : MessagePayload) (attempt : ℕ)
        → trim_step attempt p ≡ some u
        → IsBounded codec env frame p
        → IsBounded codec env frame u
    unfolding IsBounded
    IsBounded-step p u attempt t b q i = b q (IsTrimmed-trans (step-IsTrimmed attempt p u t) i)

    -- With no content, and an output that m halvings bring under 2048 bytes.
    outputs :
        (m left attempt : ℕ) (p : MessagePayload)
        → IsBounded codec env frame p
        → length p.content ≡ 0
        → length p.output < 2048 * two_to m
        → m ≤ left
        → Fitted (suc left) attempt p
    unfolding IsBounded
    outputs zero left attempt p b e o n =
        let (line, enc, len) = b p (IsTrimmed-refl p) in stop left attempt p line enc (omega arith)
    outputs (suc m) zero attempt p b e o n = absurd (omega arith)
    outputs (suc m) (suc left) attempt p b e o n =
        let (line, enc, len) = b p (IsTrimmed-refl p) in
        elim (Bool-cases (fits line)) [
          | inl small ↦ stop (suc left) attempt p line enc (ground arith)
          | inr big ↦
              let (u, t, same, half, cap) = output_round attempt p e (ground arith) in
              go_on (suc left) attempt p u line enc big t (
                outputs m left (attempt + 1) u (IsBounded-step p u attempt t b) (ap length same ∙ e)
                  (omega arith) (omega arith))
        ]

    -- With no content, and any output.
    all_output :
        (left attempt : ℕ) (p : MessagePayload)
        → IsBounded codec env frame p
        → length p.content ≡ 0
        → 10 ≤ left
        → Fitted (suc left) attempt p
    unfolding IsBounded
    all_output zero attempt p b e n = absurd (omega arith)
    all_output (suc left) attempt p b e n =
        let (line, enc, len) = b p (IsTrimmed-refl p) in
        elim (Bool-cases (fits line)) [
          | inl small ↦ stop (suc left) attempt p line enc (ground arith)
          | inr big ↦
              let (u, t, same, half, cap) = output_round attempt p e (ground arith) in
              go_on (suc left) attempt p u line enc big t (
                outputs 9 left (attempt + 1) u (IsBounded-step p u attempt t b) (ap length same ∙ e)
                  (omega arith) (omega arith))
        ]

    -- With a content that j halvings bring to nothing.
    contents :
        (j left attempt : ℕ) (p : MessagePayload)
        → IsBounded codec env frame p
        → length p.content < two_to j
        → j + 10 ≤ left
        → Fitted (suc left) attempt p
    unfolding IsBounded
    contents zero left attempt p b c n = all_output left attempt p b (omega arith) (omega arith)
    contents (suc j) zero attempt p b c n = absurd (omega arith)
    contents (suc j) (suc left) attempt p b c n =
        let (line, enc, len) = b p (IsTrimmed-refl p) in
        elim (dec_lt 0 (length p.content)) [
          | no none_left ↦ all_output (suc left) attempt p b (omega arith) (omega arith)
          | yes some_left ↦ elim (Bool-cases (fits line)) [
            | inl small ↦ stop (suc left) attempt p line enc (ground arith)
            | inr big ↦
                let (u, t, same, half, cap) = content_round attempt p some_left in
                go_on (suc left) attempt p u line enc big t (
                  contents j left (attempt + 1) u (IsBounded-step p u attempt t b) (omega arith)
                    (omega arith))
          ]
        ]

    -- If everything but the content and the output takes at most 1 MiB less 12 KiB, the rounds of
    -- the loop are enough: it returns a message whose line is within the cap of 1 MiB, however
    -- long the content and the output are.
    pub rounds_are_enough : (p : MessagePayload) → IsBounded codec env frame p → Fitted rounds 0 p
    unfolding IsBounded
    rounds_are_enough p b =
        let (line, enc, len) = b p (IsTrimmed-refl p) in
        elim (dec_lt 0 (length p.content)) [
          | no none_left ↦ all_output 31 0 p b (omega arith) (omega arith)
          | yes some_left ↦ elim (Bool-cases (fits line)) [
            | inl small ↦ stop 31 0 p line enc (ground arith)
            | inr big ↦
                let (u, t, same, half, cap) = content_round 0 p some_left in
                go_on 31 0 p u line enc big t
                  (contents 20 30 1 u (IsBounded-step p u 0 t b) (omega arith) (omega arith))
          ]
        ]
