-- ===== src/Agent/Arguments.antt =====
-- The user's own arguments for an agent's command line: the shared helpers of
-- daemon/pkg/agent/claude.go.
use meowth.Prelude.{
  ℕ, Bool, true, false, ◌&&◌, ◌||◌, List, [], ◌∷◌, ◌++◌, Option, none, some, ◌==◌, if◌then◌else◌,
  length, take, Bytes, codes, bytes_eq, has_prefix,
}

pub data BlockedArgMode : Type 0 where
  with_value standalone : BlockedArgMode

-- A Go map from flags to their modes.
abbrev pub BlockedArgs : Type 0
BlockedArgs = List (Bytes × BlockedArgMode)

unfoldable pub mode_of : Bytes → BlockedArgs → Option BlockedArgMode
mode_of flag [] = none
mode_of flag ((f, m) ∷ rest) = if bytes_eq f flag then some m else mode_of flag rest

-- A byte before both parts of a split text.
unfoldable pub lead : ℕ → Option (Bytes × Bytes) → Option (Bytes × Bytes)
lead c none = none
lead c (some (a, b)) = some (c ∷ a, b)

-- What stands before and behind the first `=`.
unfoldable pub cut : Bytes → Option (Bytes × Bytes)
unfolding lead
cut [] = none
cut (c ∷ s) = let rest = lead c (cut s) in if c == b'=' then some ([], s) else rest

-- `strings.Index(arg, "=")` where it is greater than 0.
unfoldable pub inline_value : Bytes → Option (Bytes × Bytes)
unfolding cut
inline_value [] = none
inline_value (c ∷ s) = if c == b'=' then none else lead c (cut s)

last_byte : ℕ → Bytes → ℕ
last_byte c [] = c
last_byte c (d ∷ s) = last_byte d s

-- `stripSurroundingQuotes`; `none` for a text that is left alone.
unfoldable pub strip_surrounding_quotes : Bytes → Option Bytes
unfolding last_byte
strip_surrounding_quotes [] = none
strip_surrounding_quotes (q ∷ []) = none
strip_surrounding_quotes (q ∷ c ∷ s) =
    if (q == b'\'' || q == b'"') && last_byte c s == q then some (take (length s) (c ∷ s)) else none

unquote : Bytes → Option Bytes → Bytes
unquote arg none = arg
unquote arg (some s) = s

unquote_value : Bytes → Option (Bytes × Bytes) → Bytes
unquote_value arg none = unquote arg (strip_surrounding_quotes arg)
unquote_value arg (some (flag, value)) =
    flag ++ b'=' ∷ unquote value (strip_surrounding_quotes value)

unfoldable pub unshell_quote_arg : Bytes → Bytes
unfolding unquote unquote_value
unshell_quote_arg arg =
    if has_prefix arg (codes "-")
    then unquote_value arg (inline_value arg)
    else unquote arg (strip_surrounding_quotes arg)

unfoldable pub flag_of : Bytes → Option (Bytes × Bytes) → Bytes
flag_of arg none = arg
flag_of arg (some (flag, value)) = flag

-- Whether the next argument is the value of a blocked one.
unfoldable pub skips_next : Option BlockedArgMode → Option (Bytes × Bytes) → Bool
skips_next (some with_value) none = true
skips_next (some with_value) (some p) = false
skips_next (some standalone) o = false
skips_next none o = false

unfoldable pub kept : Bytes → Option BlockedArgMode → List Bytes → List Bytes
kept arg none rest = arg ∷ rest
kept arg (some m) rest = rest

-- The loop of `filterCustomArgs`; the Boolean is `skip`.
unfoldable pub filter_from : BlockedArgs → Bool → List Bytes → List Bytes
unfolding kept skips_next flag_of
filter_from blocked skip [] = []
filter_from blocked true (raw ∷ args) = filter_from blocked false args
filter_from blocked false (raw ∷ args) =
    let arg = unshell_quote_arg raw in
    let inline = inline_value arg in
    let mode = mode_of (flag_of arg inline) blocked in
    kept arg mode (filter_from blocked (skips_next mode inline) args)

unfoldable pub filter_custom_args : List Bytes → BlockedArgs → List Bytes
unfolding filter_from
filter_custom_args args blocked = filter_from blocked false args

-- `resolveSessionID`
unfoldable pub resolve_session_id : Bytes → Bytes → Bool → Bytes
resolve_session_id [] emitted failed = emitted
resolve_session_id (c ∷ requested) [] failed = []
resolve_session_id (c ∷ requested) (d ∷ emitted) failed =
    if failed
    then (if bytes_eq (d ∷ emitted) (c ∷ requested) then d ∷ emitted else [])
    else d ∷ emitted

unfoldable pub is_filtered_child_env_key : Bytes → Bool
is_filtered_child_env_key key =
    bytes_eq key (codes "CLAUDECODE")
    || bytes_eq key (codes "CLAUDE_CODE_ENTRYPOINT")
    || bytes_eq key (codes "CLAUDE_CODE_EXECPATH")
    || bytes_eq key (codes "CLAUDE_CODE_SESSION_ID")
    || bytes_eq key (codes "CLAUDE_CODE_SSE_PORT")
    || has_prefix key (codes "CLAUDECODE_")

-- `strings.Cut(entry, "=")`, its first part.
unfoldable pub env_key : Bytes → Bytes
env_key entry = flag_of entry (cut entry)

unfoldable pub inherited : List Bytes → List Bytes
inherited [] = []
inherited (entry ∷ base) =
    let rest = inherited base in
    if is_filtered_child_env_key (env_key entry) then rest else entry ∷ rest

added : List (Bytes × Bytes) → List Bytes
added [] = []
added ((k, v) ∷ extra) = (k ++ b'=' ∷ v) ∷ added extra

-- `mergeEnv`; the map's entries come in the order of its iteration.
unfoldable pub merge_env : List Bytes → List (Bytes × Bytes) → List Bytes
unfolding inherited added
merge_env base extra = inherited base ++ added extra
