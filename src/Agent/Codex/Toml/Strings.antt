-- ===== src/Agent/Codex/Toml/Strings.antt =====
-- A reader of basic strings by the grammar of TOML, which shares nothing with the code, and what it
-- makes of those that are written (Agent/Codex/Toml.antt).
use meowth.Prelude.{
  ℕ, zero, suc, ◌+◌, ◌-◌, ◌*◌, ◌/◌, ◌%◌, ◌<◌, ◌≡◌, refl, ap, ◌∙◌, true, false, [], ◌∷◌, ◌++◌,
  append_assoc, Option, none, some, if◌then◌else◌, Bytes, leb, Bool, ◌&&◌, ◌||◌, ◌==◌, arith, sym,
  subst, Bool-cases, ==_iff, inl, inr,
}
use meowth.Agent.Codex.Toml.{hex_digit, is_toml_control, escape, escaped, codex_toml_basic_string}

-- Inside the string; behind a backslash; within the digits of an escape.
pub data Mode : Type 0 where
  plain backslash : Mode
  -- how many digits are left after the next, and the number so far
  hex : ℕ → ℕ → Mode

-- The value of a digit to the base of 16.
unfoldable pub digit_value : ℕ → Option ℕ
digit_value c =
    if leb b'0' c && leb c b'9'
    then some (c - b'0')
    else if leb b'A' c && leb c b'F'
    then some (c - b'A' + 10)
    else if leb b'a' c && leb c b'f'
    then some (c - b'a' + 10)
    else none

-- The characters that a basic string of TOML may not hold unescaped, besides the quote and the
-- backslash: U+0000 to U+0008, U+000A to U+001F, and U+007F.
unfoldable pub is_forbidden : ℕ → Bool
is_forbidden c = leb c 8 || leb 10 c && leb c 31 || c == 127

-- The character of an escape of one letter.
unfoldable pub unescape : ℕ → Option ℕ
unescape c =
    if c == 92
    then some 92
    else if c == 34
    then some 34
    else if c == b'b'
    then some 8
    else if c == b't'
    then some 9
    else if c == b'n'
    then some 10
    else if c == b'f'
    then some 12
    else if c == b'r'
    then some 13
    else none

unfoldable pub push : Option ℕ → Option (Bytes × Bytes) → Option (Bytes × Bytes)
push none o = none
push (some c) none = none
push (some c) (some (s, rest)) = some (c ∷ s, rest)

-- The text up to the closing quote and what stands behind it; a control character that is not escaped
-- is refused, and so is an escape with a letter that is no digit.
unfoldable pub read : Mode → Bytes → Option (Bytes × Bytes)
unfolding is_forbidden
read mode [] = none
read plain (c ∷ s) =
    let more = read plain s in
    let escaping = read backslash s in
    if c == 34
    then some ([], s)
    else if c == 92
    then escaping
    else if is_forbidden c
    then none
    else push (some c) more
read backslash (c ∷ s) =
    let more = read plain s in
    let digits = read (hex 3 0) s in if c == b'u' then digits else push (unescape c) more
read (hex zero n) (c ∷ s) = elim (digit_value c) [
  | none ↦ none
  | some d ↦ push (some (n * 16 + d)) (read plain s)
]
read (hex (suc k) n) (c ∷ s) = elim (digit_value c) [
  | none ↦ none
  | some d ↦ read (hex k (n * 16 + d)) s
]

unfoldable pub read_basic_string : Bytes → Option (Bytes × Bytes)
read_basic_string [] = none
read_basic_string (c ∷ s) = if c == 34 then read plain s else none

digit_value-hex_digit : (d : ℕ) → d < 16 → digit_value (hex_digit d) ≡ some d
unfolding digit_value hex_digit
digit_value-hex_digit d h = ground (arith, h)

module _ (rest : Bytes) where
  Reads : ℕ → Type 0
  Reads c = read plain (escape c ++ rest) ≡ push (some c) (read plain rest)

  at : (c n : ℕ) → (c == n) ≡ true → Reads n → Reads c
  at c n h r = subst Reads (sym ((==_iff c n).0 h)) r

  unicode-Reads :
      (c : ℕ)
      → is_toml_control c ≡ true
      → read plain
          ((92 ∷ b'u' ∷ b'0' ∷ b'0' ∷ hex_digit (c / 16) ∷ hex_digit (c % 16) ∷ []) ++ rest)
        ≡ push (some c) (read plain rest)
  unfolding read is_toml_control
  unicode-Reads c control =
      let small : c < 128 = ground (arith, control) in
      let high : c / 16 < 16 = omega (arith, small) in
      let low : c % 16 < 16 = omega arith in
      unfold digit_value in
      rw (digit_value-hex_digit (c / 16) high, digit_value-hex_digit (c % 16) low)
        (ap (λ n. push (some n) (read plain rest)) (omega arith))

  other-Reads :
      (c : ℕ)
      → (c == 92) ≡ false
      → (c == 34) ≡ false
      → (if is_toml_control c
          then 92 ∷ b'u' ∷ b'0' ∷ b'0' ∷ hex_digit (c / 16) ∷ hex_digit (c % 16) ∷ []
          else c ∷ [])
        ≡ escape c
      → Reads c
  unfolding Reads
  other-Reads c bs q e = rw (sym e) (elim (Bool-cases (is_toml_control c)) [
    | inl control ↦ rw control (unicode-Reads c control)
    | inr printed ↦ rw printed (
        let allowed : is_forbidden c ≡ false =
          unfold is_toml_control is_forbidden in ground (arith, printed) in
        unfold read in rw (q, bs, allowed) refl)
  ])

  read-escape : (c : ℕ) → Reads c
  unfolding Reads read escape unescape is_toml_control
  read-escape c = elim (Bool-cases (c == 92)) [
    | inl h ↦ at c 92 h refl
    | inr bs ↦ elim (Bool-cases (c == 34)) [
      | inl h ↦ at c 34 h refl
      | inr q ↦ elim (Bool-cases (c == 8)) [
        | inl h ↦ at c 8 h refl
        | inr e8 ↦ elim (Bool-cases (c == 9)) [
          | inl h ↦ at c 9 h refl
          | inr e9 ↦ elim (Bool-cases (c == 10)) [
            | inl h ↦ at c 10 h refl
            | inr e10 ↦ elim (Bool-cases (c == 12)) [
              | inl h ↦ at c 12 h refl
              | inr e12 ↦ elim (Bool-cases (c == 13)) [
                | inl h ↦ at c 13 h refl
                | inr e13 ↦ other-Reads c bs q (sym (rw (bs, q, e8, e9, e10, e12, e13) refl))
              ]
            ]
          ]
        ]
      ]
    ]
  ]

read-escaped : (s rest : Bytes) → read plain ((escaped s ++ 34 ∷ []) ++ rest) ≡ some (s, rest)
unfolding escaped Reads push
read-escaped [] rest = unfold read in refl
read-escaped (c ∷ s) rest =
    rw
      (
        append_assoc (escape c) (escaped s) (34 ∷ []),
        append_assoc (escape c) (escaped s ++ 34 ∷ []) rest,
      )
      (read-escape ((escaped s ++ 34 ∷ []) ++ rest) c ∙ ap (push (some c)) (read-escaped s rest))

-- What is written as a basic string is read back as it was by the grammar of TOML, whatever stands behind
-- it: no text that a configuration holds, with quotes, backslashes, line breaks or control characters, ends
-- its string early, and none leaves a character in it that TOML refuses unescaped.
pub read-basic_string :
    (s rest : Bytes) → read_basic_string (codex_toml_basic_string s ++ rest) ≡ some (s, rest)
unfolding read_basic_string codex_toml_basic_string
read-basic_string s rest = read-escaped s rest
