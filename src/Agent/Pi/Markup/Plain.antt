-- ===== src/Agent/Pi/Markup/Plain.antt =====
-- Text that has nothing in common with markup passes pi's sanitizer (Agent/Pi/Markup.antt) unchanged.
use meowth.Prelude.{
  ℕ, zero, suc, ◌≡◌, refl, ap, ◌∙◌, Bool, true, not, ◌||◌, [], ◌∷◌, ◌++◌, none, ◌==◌, take, drop,
  take-append-drop, every, Bytes, codes, has_prefix, arith,
}
use meowth.Agent.Pi.Markup.{
  control_token, replaced, without_control_tokens, prefix_here, next_pi_tool_markup_prefix,
  safe_pi_text_emit_len, plan, hold, planned, drain, drain_pi_sanitized_text, flush_pi_text_buffer,
}

-- Neither a colon nor an angle bracket.
abbrev plain_byte : ℕ → Bool
plain_byte c = not (c == b':' || c == b'<')

abbrev pub is_plain : Bytes → Bool
is_plain s = every plain_byte s

every-prefix :
    (p : ℕ → Bool) (s t : Bytes) → has_prefix s t ≡ true → every p s ≡ true → every p t ≡ true
unfolding has_prefix
every-prefix p s [] h k = refl
every-prefix p [] (y ∷ t) h k = cc
every-prefix p (x ∷ s) (y ∷ t) h k = ground (arith, h, k, every-prefix p s t)

no_prefix : (s : Bytes) → is_plain s ≡ true → prefix_here s ≡ 0
unfolding prefix_here
no_prefix s h = ground (
  arith,
  every-prefix plain_byte s (codes "call:"),
  every-prefix plain_byte s (codes "response:"),
  h,
)

no_next : (s : Bytes) → is_plain s ≡ true → next_pi_tool_markup_prefix s ≡ none
unfolding next_pi_tool_markup_prefix
no_next [] h = refl
no_next (c ∷ s) h = rw (no_prefix (c ∷ s) h, no_next s (ground (arith, h))) refl

plain-tail : (c : ℕ) (s : Bytes) → is_plain (c ∷ s) ≡ true → is_plain s ≡ true
plain-tail c s h = ground (arith, h)

plain-drop : (n : ℕ) (s : Bytes) → is_plain s ≡ true → is_plain (drop n s) ≡ true
plain-drop zero s h = h
plain-drop (suc n) [] h = refl
plain-drop (suc n) (c ∷ s) h = plain-drop n s (plain-tail c s h)

pub plain-append : (s t : Bytes) → is_plain s ≡ true → is_plain t ≡ true → is_plain (s ++ t) ≡ true
plain-append [] t h k = k
plain-append (c ∷ s) t h k = ground (arith, h, k, plain-append s t)

no_token : (c : ℕ) (s : Bytes) → is_plain (c ∷ s) ≡ true → control_token (c ∷ s) ≡ 0
unfolding control_token has_prefix
no_token c s h = ground (arith, h)

replaced-plain : (s : Bytes) → is_plain s ≡ true → replaced 0 s ≡ s
unfolding replaced
replaced-plain [] h = refl
replaced-plain (c ∷ s) h =
    rw (no_token c s h) (ap (λ (r : Bytes). c ∷ r) (replaced-plain s (plain-tail c s h)))

plain-take : (n : ℕ) (s : Bytes) → is_plain s ≡ true → is_plain (take n s) ≡ true
plain-take zero s h = refl
plain-take (suc n) [] h = refl
plain-take (suc n) (c ∷ s) h = ground (arith, h, plain-take n s)

plan-plain :
    (c : ℕ) (s : Bytes)
    → is_plain (c ∷ s) ≡ true
    → plan (c ∷ s) ≡ hold (safe_pi_text_emit_len (c ∷ s))
unfolding plan
plan-plain c s h = ap (planned (c ∷ s)) (no_next (c ∷ s) h) ∙ unfold planned in refl

drain-plain : (s : Bytes) → is_plain s ≡ true → (n : ℕ) × (drain 0 0 s ≡ (take n s, drop n s))
unfolding drain
drain-plain [] h = (0, refl)
drain-plain (c ∷ s) h = (safe_pi_text_emit_len (c ∷ s), ground (arith, plan-plain c s h))

-- Draining splits a plain text into what it emits and what it holds back.
pub drained :
    (s : Bytes)
    → is_plain s ≡ true
    → ((drain_pi_sanitized_text s).0 ++ (drain_pi_sanitized_text s).1 ≡ s)
      × (is_plain (drain_pi_sanitized_text s).1 ≡ true)
unfolding drain_pi_sanitized_text without_control_tokens
drained s h =
    let (n, e) = drain-plain s h in
    rw e
      (rw (replaced-plain (take n s) (plain-take n s h)) (take-append-drop n s), plain-drop n s h)

pub flushed : (s : Bytes) → is_plain s ≡ true → flush_pi_text_buffer s ≡ s
unfolding flush_pi_text_buffer without_control_tokens
flushed s h =
    let (e, k) = drained s h in
    ap (λ t. (drain_pi_sanitized_text s).0 ++ t) (replaced-plain (drain_pi_sanitized_text s).1 k)
    ∙ e
