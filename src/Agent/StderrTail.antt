-- ===== src/Agent/StderrTail.antt =====
-- The bounded tail of a child process's stderr: daemon/pkg/agent/stderr_tail.go.
use native.Mathlib.Decide.{dec_le}
use meowth.Prelude.{
  ℕ, ◌+◌, ◌-◌, ◌≤◌, ◌≡◌, refl, ap, ◌∙◌, sym, Bool, true, false, List, [], ◌∷◌, ◌++◌, append_assoc,
  append-nil, take-append-drop, length-take, length-drop, length, length-append, take, drop, ltb,
  ◌==◌, if◌then◌else◌, Bytes, codes, trim_space, arith, Bool-cases, inl, inr, suc,
}

abbrev agent_stderr_tail_bytes : ℕ
agent_stderr_tail_bytes = 2048

-- `newStderrTail`'s bound; the code takes anything that is not positive for the default.
unfoldable pub bound : ℕ → ℕ
bound max = if max == 0 then agent_stderr_tail_bytes else max

-- `Write`, of a chunk that the inner writer takes or not.
unfoldable pub write : ℕ → Bool → Bytes → Bytes → Bytes
write max inner_fails chunk buf =
    if inner_fails
    then buf
    else (let all = buf ++ chunk in
        if ltb max (length all) then drop (length all - max) all else all)

unfoldable pub write_all : ℕ → List (Bool × Bytes) → Bytes → Bytes
write_all max [] buf = buf
write_all max ((fails, chunk) ∷ rest) buf = write_all max rest (write max fails chunk buf)

-- `Tail`
pub tail : Bytes → Bytes
tail buf = trim_space buf

-- `withAgentStderr`
unfoldable pub with_agent_stderr : Bytes → Bytes → Bytes → Bytes
with_agent_stderr msg label t =
    if length t == 0 then msg else msg ++ codes "; " ++ label ++ codes " stderr: " ++ t

-- What the inner writer has taken.
unfoldable pub taken : List (Bool × Bytes) → Bytes
taken [] = []
taken ((fails, chunk) ∷ rest) = (if fails then [] else chunk) ++ taken rest

-- The last `n` elements.
abbrev pub last : ℕ → Bytes → Bytes
last n s = drop (length s - n) s

drop-past : (a b : Bytes) (k : ℕ) → drop (length a + k) (a ++ b) ≡ drop k b
drop-past [] b k = ap (λ i. drop i b) (omega arith)
drop-past (c ∷ a) b k =
    ap (λ i. drop i (c ∷ a ++ b)) {x = suc (length a) + k} {y = suc (length a + k)} (omega arith)
    ∙ drop-past a b k

whole : (max : ℕ) (s : Bytes) → length s ≤ max → last max s ≡ s
whole max s h = ap (λ i. drop i s) {x = length s - max} {y = 0} (omega arith)

-- Only the last part of a text matters for the last part of a longer one.
last-last : (max : ℕ) (s r : Bytes) → last max (last max s ++ r) ≡ last max (s ++ r)
last-last max s r = elim (dec_le (length s) max) [
  | yes short ↦ ap (λ l. last max (l ++ r)) (whole max s short)
  | no long ↦
      let k = length s - max in
      let a = take k s in
      let l = last max s in
      ap (λ i. drop i (l ++ r)) {x = length (l ++ r) - max} {y = length r}
        (omega (arith, length-append l r, length-drop k s))
      ∙ sym (
          ap (λ i. drop i (s ++ r)) {x = length (s ++ r) - max} {y = length a + length r}
            (omega (arith, length-append s r, length-take k s))
          ∙ ap (λ t. drop (length a + length r) (t ++ r)) (sym (take-append-drop k s))
          ∙ ap (λ t. drop (length a + length r) t) (append_assoc a l r)
          ∙ drop-past a (l ++ r) (length r))
]

length-last : (max : ℕ) (s : Bytes) → length (last max s) ≤ max
length-last max s = omega (arith, length-drop (length s - max) s)

write-last :
    (max : ℕ) (fails : Bool) (chunk buf : Bytes)
    → length buf ≤ max
    → write max fails chunk buf ≡ last max (buf ++ (if fails then [] else chunk))
unfolding write
write-last max true chunk buf h = sym (ap (λ l. last max l) (append-nil buf) ∙ whole max buf h)
write-last max false chunk buf h = elim (Bool-cases (ltb max (length (buf ++ chunk)))) [
  | inl long ↦ rw long refl
  | inr short ↦ rw short (sym (whole max (buf ++ chunk) (ground (arith, short))))
]

-- However the writes are cut into chunks, the buffer holds the last `max` bytes of what it held at
-- the start followed by all that the inner writer has taken.
pub write_all-last :
    (max : ℕ) (ws : List (Bool × Bytes)) (buf : Bytes)
    → length buf ≤ max
    → write_all max ws buf ≡ last max (buf ++ taken ws)
unfolding write_all taken
write_all-last max [] buf h = sym (ap (λ l. last max l) (append-nil buf) ∙ whole max buf h)
write_all-last max ((fails, chunk) ∷ ws) buf h =
    let new = if fails then [] else chunk in
    ap (λ b. write_all max ws b) (write-last max fails chunk buf h)
    ∙ write_all-last max ws (last max (buf ++ new)) (length-last max (buf ++ new))
    ∙ last-last max (buf ++ new) (taken ws)
    ∙ ap (λ l. last max l) (append_assoc buf new (taken ws))
