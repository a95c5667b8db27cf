-- ===== src/Agent/Pi/Markup.antt =====
-- The sanitizer of pi's text: daemon/pkg/agent/pi.go. It takes tool calls and control tokens out of
-- the text, and holds back what may be the beginning of one. Positions in the code are lengths here.
pub mod Plain
use meowth.Prelude.{
  ℕ, zero, suc, ◌+◌, ◌-◌, Bool, true, false, not, ◌&&◌, ◌||◌, List, [], ◌∷◌, ◌++◌, Option, none,
  some, ltb, leb, ◌==◌, if◌then◌else◌, length, take, drop, every, Bytes, codes, has_prefix,
  has_suffix,
}

-- `isPiToolNameByte`, and the class [A-Za-z0-9_-] of the control tokens.
unfoldable pub is_name_byte : ℕ → Bool
is_name_byte b =
    (leb b'a' b && leb b b'z')
    || (leb b'A' b && leb b b'Z')
    || (leb b'0' b && leb b b'9')
    || b == b'_'
    || b == b'-'

-- How many of a text's first bytes are bytes of a name.
unfoldable pub name_length : Bytes → ℕ
name_length [] = 0
name_length (c ∷ s) = let rest = name_length s in if is_name_byte c then suc rest else 0

-- The length of the match of `<\|[A-Za-z0-9_-]+>[A-Za-z0-9_-]*|<[A-Za-z0-9_-]+\|>` at the start of a
-- text, 0 where there is none.
open_token : Bytes → ℕ
open_token s =
    let n = name_length s in
    let after = drop n s in
    if not (n == 0) && has_prefix after (codes ">") then n + 3 + name_length (drop 1 after) else 0

close_token : Bytes → ℕ
close_token s =
    let n = name_length s in if not (n == 0) && has_prefix (drop n s) (codes "|>") then n + 3 else 0

unfoldable pub control_token : Bytes → ℕ
unfolding open_token close_token
control_token s =
    if has_prefix s (codes "<|")
    then open_token (drop 2 s)
    else if has_prefix s (codes "<")
    then close_token (drop 1 s)
    else 0

-- `piControlTokenRE.ReplaceAllString(s, "")`; the number counts the bytes of a match still to drop.
replaced : ℕ → Bytes → Bytes
replaced skip [] = []
replaced (suc k) (c ∷ s) = replaced k s
replaced zero (c ∷ s) =
    let n = control_token (c ∷ s) in
    let rest = replaced (n - 1) s in if n == 0 then c ∷ rest else rest

unfoldable pub without_control_tokens : Bytes → Bytes
unfolding replaced
without_control_tokens s = replaced 0 s

abbrev quote_marker : Bytes
quote_marker = codes "<|\"|>"

one_more : Option ℕ → Option ℕ
one_more none = none
one_more (some n) = some (suc n)

-- The braces behind a tool's name, from their depth and whether a quote is open; `skip` bytes of a
-- quote marker are still to pass. The length to the end of the call.
scan_braces : ℕ → ℕ → Bool → Bytes → Option ℕ
unfolding one_more
scan_braces skip depth in_quote [] = none
scan_braces (suc k) depth in_quote (c ∷ s) = one_more (scan_braces k depth in_quote s)
scan_braces zero depth in_quote (c ∷ s) =
    let marks = has_prefix (c ∷ s) quote_marker in
    let counts = not marks && not in_quote in
    let depth' =
      if counts && c == b'{' then depth + 1 else if counts && c == b'}' then depth - 1 else depth in
    let rest =
      scan_braces (if marks then 4 else 0) depth' (if marks then not in_quote else in_quote) s in
    if counts && c == b'}' && depth' == 0
    then some (if has_prefix s (codes "<tool_call|>") then 13 else 1)
    else one_more rest

plus : ℕ → Option ℕ → Option ℕ
plus n none = none
plus n (some m) = some (n + m)

-- `scanPiToolMarkupEnd`, from behind the prefix.
unfoldable pub scan_pi_tool_markup_end : Bytes → Option ℕ
unfolding scan_braces plus
scan_pi_tool_markup_end s =
    let n = name_length s in
    if not (n == 0) && has_prefix (drop n s) (codes "{")
    then plus n (scan_braces 0 0 false (drop n s))
    else none

prefix_here : Bytes → ℕ
prefix_here s =
    if has_prefix s (codes "call:") then 5 else if has_prefix s (codes "response:") then 9 else 0

-- `nextPiToolMarkupPrefix`: what stands before the first prefix, and its length.
unfoldable pub next_pi_tool_markup_prefix : Bytes → Option (ℕ × ℕ)
unfolding prefix_here
next_pi_tool_markup_prefix [] = none
next_pi_tool_markup_prefix (c ∷ s) =
    let rest : Option (ℕ × ℕ) = elim (next_pi_tool_markup_prefix s) [
      | none ↦ none
      | some (n, p) ↦ some (suc n, p)
    ] in
    if prefix_here (c ∷ s) == 0 then rest else some (0, prefix_here (c ∷ s))

-- The longest proper prefix of `p`, up to `n` bytes, in which `s` ends.
held : ℕ → Bytes → Bytes → ℕ
held zero p s = 0
held (suc n) p s = let rest = held n p s in if has_suffix s (take (suc n) p) then suc n else rest

is_control_byte : ℕ → Bool
is_control_byte b = is_name_byte b || b == b'|' || b == b'>'

-- `looksLikePiControlTokenPrefix`
looks_like_control_token : Bytes → Bool
unfolding is_control_byte
looks_like_control_token [] = false
looks_like_control_token (c ∷ s) = (c == b'<' && leb (length (c ∷ s)) 64) && every is_control_byte s

-- `s[strings.LastIndexByte(s, '<'):]`
last_angle : Bytes → Option Bytes
last_angle [] = none
last_angle (c ∷ s) = elim (last_angle s) [
  | some t ↦ some t
  | none ↦ if c == b'<' then some (c ∷ s) else none
]

angle_held : Option Bytes → ℕ
angle_held none = 0
angle_held (some t) = if looks_like_control_token t then length t else 0

max : ℕ → ℕ → ℕ
max a b = if ltb a b then b else a

-- `safePiTextEmitLen`
unfoldable pub safe_pi_text_emit_len : Bytes → ℕ
unfolding held angle_held last_angle looks_like_control_token max
safe_pi_text_emit_len s =
    length s
    - max (max (held 4 (codes "call:") s) (held 8 (codes "response:") s))
        (angle_held (last_angle s))

-- What a turn of the loop in `drainPiSanitizedText` does at the start of a segment.
pub data Plan : Type 0 where
  -- emits as many bytes and holds back the rest
  hold : ℕ → Plan
  -- emits as many bytes and drops as many behind them
  remove : ℕ → ℕ → Plan

planned : Bytes → Option (ℕ × ℕ) → Plan
planned s none = hold (safe_pi_text_emit_len s)
planned s (some (n, p)) = elim (scan_pi_tool_markup_end (drop (n + p) s)) [
  | none ↦ hold n
  | some e ↦ remove n (p + e)
]

unfoldable pub plan : Bytes → Plan
unfolding planned
plan s = planned s (next_pi_tool_markup_prefix s)

emit : ℕ → Bytes × Bytes → Bytes × Bytes
emit c (out, pending) = (c ∷ out, pending)

-- The loop of `drainPiSanitizedText`: bytes to emit and bytes to drop before the next turn.
unfoldable pub drain : ℕ → ℕ → Bytes → Bytes × Bytes
unfolding emit
drain copy skip [] = ([], [])
drain (suc k) skip (c ∷ s) = emit c (drain k skip s)
drain zero (suc k) (c ∷ s) = drain zero k s
drain zero zero (c ∷ s) = elim (plan (c ∷ s)) [
  | hold n ↦ (take n (c ∷ s), drop n (c ∷ s))
  | remove zero k ↦ drain zero (k - 1) s
  | remove (suc n) k ↦ emit c (drain n k s)
]

-- `drainPiSanitizedText`: the text to emit, and what is held back.
unfoldable pub drain_pi_sanitized_text : Bytes → Bytes × Bytes
drain_pi_sanitized_text s = (without_control_tokens (drain 0 0 s).0, (drain 0 0 s).1)

-- `drainPiTextBuffer`: the text to emit, and the new buffer.
unfoldable pub drain_pi_text_buffer : Bytes → Bytes → Bytes × Bytes
drain_pi_text_buffer buf delta = drain_pi_sanitized_text (buf ++ delta)

-- `flushPiTextBuffer`
unfoldable pub flush_pi_text_buffer : Bytes → Bytes
flush_pi_text_buffer buf =
    let (out, pending) = drain_pi_sanitized_text buf in out ++ without_control_tokens pending
