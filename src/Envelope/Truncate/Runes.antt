-- ===== src/Envelope/Truncate/Runes.antt =====
-- `safeTruncateRunes` of Envelope/Truncate.antt cuts at the last rune boundary that fits.
use meowth.Prelude.{
  ℕ, zero, suc, ◌≤◌, ◌<◌, ◌≡◌, refl, sym, ap, true, false, [], ◌∷◌, length, take, length-take,
  Bytes, arith, subst, leb, Bool-cases, inl, inr,
}
use meowth.Envelope.Truncate.{is_utf8_rune_boundary, walk_back, safe_truncate_runes}

pub take-length : (s : Bytes) → take (length s) s ≡ s
take-length [] = refl
take-length (c ∷ s) = ap (λ (t : Bytes). c ∷ t) (take-length s)

-- `r` is the longest prefix of `s` that ends at a rune boundary and has at most `n` bytes.
pub record IsCut (s : Bytes) (n : ℕ) (r : Bytes) : Type 0 where
  pub at : ℕ
  pub prefix : r ≡ take at s
  pub short : at ≤ n
  pub boundary : is_utf8_rune_boundary s at ≡ true
  pub last : (k : ℕ) → at < k → k ≤ n → k ≤ length s → is_utf8_rune_boundary s k ≡ false

walk_back-IsCut : (s : Bytes) (n : ℕ) → IsCut s n (walk_back s n)
unfolding walk_back
walk_back-IsCut s zero = record {
  at = 0;
  prefix = refl;
  short = omega arith;
  boundary = unfold is_utf8_rune_boundary in refl;
  last = λ k p q _. absurd (omega arith);
}
walk_back-IsCut s (suc i) = elim (Bool-cases (is_utf8_rune_boundary s (suc i))) [
  | inl b ↦ rw b (record {
    at = suc i;
    prefix = refl;
    short = omega arith;
    boundary = b;
    last = λ k p q _. absurd (omega arith);
  })
  | inr b ↦ rw b (
      let c = walk_back-IsCut s i in
      record {
        at = c.at;
        prefix = c.prefix;
        short = omega (arith, c.short);
        boundary = c.boundary;
        last = λ k p q l. elim (Bool-cases (leb k i)) [
          | inl le ↦ c.last k p (ground arith) l
          | inr gt ↦ subst (λ m. is_utf8_rune_boundary s m ≡ false) (ground arith) b
        ];
      })
]

-- A truncated text is the longest prefix of the text that fits in `n` bytes and does not end
-- within a UTF-8 rune.
pub safe_truncate_runes-IsCut : (s : Bytes) (n : ℕ) → IsCut s n (safe_truncate_runes s n)
unfolding safe_truncate_runes
safe_truncate_runes-IsCut s n = elim (Bool-cases (leb (length s) n)) [
  | inl le ↦ rw le (record {
    at = length s;
    prefix = sym (take-length s);
    short = ground arith;
    boundary = unfold is_utf8_rune_boundary in ground arith;
    last = λ k p q l. absurd (omega arith);
  })
  | inr gt ↦ rw gt (walk_back-IsCut s n)
]

pub length-safe_truncate_runes : (s : Bytes) (n : ℕ) → length (safe_truncate_runes s n) ≤ n
length-safe_truncate_runes s n =
    let c = safe_truncate_runes-IsCut s n in
    omega (arith, ap (λ (r : Bytes). length r) c.prefix, length-take c.at s, c.short)
