-- ===== src/Agent/CommandLines/Owned.antt =====
-- The user's arguments cannot set a flag that the daemon owns (Agent/CommandLines.antt).
use meowth.Prelude.{
  ℕ, ◌+◌, ◌≡◌, ◌≢◌, ◌≤◌, refl, Bool, true, false, ◌||◌, List, [], ◌∷◌, ◌++◌, Option, none, some,
  ◌==◌, if◌then◌else◌, Bytes, codes, bytes_eq, bytes_eq_sound, has_prefix, arith, Bool-cases,
  Option-cases, inl, inr,
}
use meowth.Agent.Arguments.{
  BlockedArgs, BlockedArgMode, mode_of, lead, cut, inline_value, flag_of, kept, skips_next,
  filter_from, filter_custom_args, unshell_quote_arg,
}
use meowth.Agent.CommandLines.{
  ExecOptions, claude_managed, build_claude_args, claude_blocked_args, build_copilot_args,
  copilot_managed, copilot_blocked_args, build_pi_args, pi_managed, pi_blocked_args,
  build_codex_args, codex_blocked_args, filter_codex_custom_config_overrides, hermes_args,
  hermes_blocked_args, codex_user_args, codex_managed, has_managed_codex_mcp_config,
}

-- The argument sets the flag: `flag`, or `flag=value`.
unfoldable pub sets : Bytes → Bytes → Bool
sets flag arg = bytes_eq arg flag || has_prefix arg (flag ++ b'=' ∷ [])

-- How many arguments set the flag.
unfoldable pub settings : Bytes → List Bytes → ℕ
settings flag [] = 0
settings flag (arg ∷ args) = (if sets flag arg then 1 else 0) + settings flag args

-- A text with no `=` in it.
abbrev pub Plain : Bytes → Type 0
Plain flag = cut flag ≡ none

Plain-tail : (c : ℕ) (flag : Bytes) → Plain (c ∷ flag) → ((c == b'=') ≡ false) × Plain flag
unfolding cut lead
Plain-tail c flag p = elim (Bool-cases (c == b'=')) [
  | inl e ↦ cc (e, p)
  | inr n ↦ elim (Option-cases (cut flag)) [ inl e ↦ (n, e) | inr ((a, b), e) ↦ cc (n, e, p) ]
]

cut-setting :
    (flag arg : Bytes)
    → Plain flag
    → has_prefix arg (flag ++ b'=' ∷ []) ≡ true
    → (v : Bytes) × (cut arg ≡ some (flag, v))
unfolding cut lead has_prefix
cut-setting [] [] p h = cc
cut-setting [] (a ∷ arg) p h = (arg, ground (arith, h))
cut-setting (c ∷ flag) [] p h = cc
cut-setting (c ∷ flag) (a ∷ arg) p h =
    let (n, q) = Plain-tail c flag p in
    let (v, e) = cut-setting flag arg q (ground (arith, h)) in (v, ground (arith, h, n, e))

inline-cut :
    (arg : Bytes) (c : ℕ) (f v : Bytes)
    → cut arg ≡ some (c ∷ f, v)
    → inline_value arg ≡ some (c ∷ f, v)
unfolding cut inline_value
inline-cut [] c f v h = cc
inline-cut (a ∷ arg) c f v h = elim (Bool-cases (a == b'=')) [
  | inl e ↦ cc (e, h)
  | inr n ↦ ground (arith, n, h)
]

inline-Plain : (c : ℕ) (f : Bytes) → Plain (c ∷ f) → inline_value (c ∷ f) ≡ none
unfolding inline_value lead
inline-Plain c f p = let (n, q) = Plain-tail c f p in rw (n, q) refl

same_mode :
    (blocked : BlockedArgs) (a b : Bytes) (m : BlockedArgMode)
    → a ≡ b
    → mode_of a blocked ≡ none
    → mode_of b blocked ≢ some m
same_mode blocked a b m e n h = cc (e, n, h)

-- An argument that is not blocked does not set a blocked flag.
unblocked-sets :
    (blocked : BlockedArgs) (c : ℕ) (f arg : Bytes) (m : BlockedArgMode)
    → Plain (c ∷ f)
    → mode_of (c ∷ f) blocked ≡ some m
    → mode_of (flag_of arg (inline_value arg)) blocked ≡ none
    → sets (c ∷ f) arg ≡ false
unfolding sets
unblocked-sets blocked c f arg m p b n = elim (Bool-cases (bytes_eq arg (c ∷ f))) [
  | inl e ↦ absurd (
      same_mode blocked (flag_of arg (inline_value arg)) (c ∷ f) m
        (let same = bytes_eq_sound arg (c ∷ f) e in
          rw same (unfold flag_of in rw (inline-Plain c f p) refl))
        n b)
  | inr e ↦ elim (Bool-cases (has_prefix arg ((c ∷ f) ++ b'=' ∷ []))) [
    | inl h ↦
        let (v, q) = cut-setting (c ∷ f) arg p h in
        absurd (
          same_mode blocked (flag_of arg (inline_value arg)) (c ∷ f) m
            (unfold flag_of in rw (inline-cut arg c f v q) refl) n b)
    | inr h ↦ rw (e, h) refl
  ]
]

settings-append :
    (flag : Bytes) (xs ys : List Bytes)
    → settings flag (xs ++ ys) ≡ settings flag xs + settings flag ys
unfolding settings
settings-append flag [] ys = omega arith
settings-append flag (x ∷ xs) ys = omega (arith, settings-append flag xs ys)

kept-settings :
    (flag arg : Bytes) (o : Option BlockedArgMode) (rest : List Bytes)
    → (o ≡ none → sets flag arg ≡ false)
    → settings flag rest ≡ 0
    → settings flag (kept arg o rest) ≡ 0
unfolding settings kept
kept-settings flag arg none rest h r = rw (h refl, r) refl
kept-settings flag arg (some m) rest h r = r

filter_from-settings :
    (blocked : BlockedArgs) (c : ℕ) (f : Bytes) (m : BlockedArgMode)
    → Plain (c ∷ f)
    → mode_of (c ∷ f) blocked ≡ some m
    → (skip : Bool) (args : List Bytes) → settings (c ∷ f) (filter_from blocked skip args) ≡ 0
unfolding settings filter_from
filter_from-settings blocked c f m p b skip [] = refl
filter_from-settings blocked c f m p b true (raw ∷ args) =
    filter_from-settings blocked c f m p b false args
filter_from-settings blocked c f m p b false (raw ∷ args) =
    let arg = unshell_quote_arg raw in
    let inline = inline_value arg in
    let mode = mode_of (flag_of arg inline) blocked in
    kept-settings (c ∷ f) arg mode (filter_from blocked (skips_next mode inline) args)
      (unblocked-sets blocked c f arg m p b)
      (filter_from-settings blocked c f m p b (skips_next mode inline) args)

-- Dropping overrides of the configuration adds no setting.
overrides-settings :
    (flag : Bytes) (args : List Bytes)
    → settings flag (filter_codex_custom_config_overrides args) ≤ settings flag args
unfolding settings filter_codex_custom_config_overrides
overrides-settings flag [] = omega arith
overrides-settings flag (arg ∷ []) = ground arith
overrides-settings flag (arg ∷ next ∷ args) =
    ground (arith, overrides-settings flag args, overrides-settings flag (next ∷ args))

user-settings :
    (blocked : BlockedArgs) (c : ℕ) (f : Bytes) (m : BlockedArgMode)
    → Plain (c ∷ f)
    → mode_of (c ∷ f) blocked ≡ some m
    → (args : List Bytes) → settings (c ∷ f) (filter_custom_args args blocked) ≡ 0
unfolding filter_custom_args
user-settings blocked c f m p b args = filter_from-settings blocked c f m p b false args

codex-settings :
    (c : ℕ) (f : Bytes) (m : BlockedArgMode)
    → Plain (c ∷ f)
    → mode_of (c ∷ f) codex_blocked_args ≡ some m
    → (managed : Bool) (args : List Bytes) → settings (c ∷ f) (codex_user_args managed args) ≡ 0
unfolding codex_user_args
codex-settings c f m p b true args = omega (
  arith,
  user-settings codex_blocked_args c f m p b args,
  overrides-settings (c ∷ f) (filter_custom_args args codex_blocked_args),
)
codex-settings c f m p b false args = user-settings codex_blocked_args c f m p b args

one-more :
    (flag : Bytes) (xs ys zs : List Bytes)
    → settings flag ys ≡ 0
    → settings flag zs ≡ 0
    → settings flag (xs ++ ys) ≡ settings flag (xs ++ zs)
one-more flag xs ys zs h k = omega (arith, settings-append flag xs ys, settings-append flag xs zs)

both :
    (flag : Bytes) (ys zs : List Bytes)
    → settings flag ys ≡ 0
    → settings flag zs ≡ 0
    → settings flag (ys ++ zs) ≡ 0
both flag ys zs h k = omega (arith, settings-append flag ys zs)

pub data Backend : Type 0 where
  claude codex hermes : Backend
  -- the prompt; the paths of the session and of the system prompt
  copilot : Bytes → Backend
  pi : Bytes → Bytes → Backend

unfoldable pub command_line : Backend → ExecOptions → List Bytes
command_line claude o = build_claude_args o
command_line codex o = build_codex_args o
command_line hermes o = hermes_args o
command_line (copilot prompt) o = build_copilot_args prompt o
command_line (pi session system) o = build_pi_args session system o

unfoldable pub blocked_args : Backend → BlockedArgs
blocked_args claude = claude_blocked_args
blocked_args codex = codex_blocked_args
blocked_args hermes = hermes_blocked_args
blocked_args (copilot prompt) = copilot_blocked_args
blocked_args (pi session system) = pi_blocked_args

abbrev pub without_user_args : ExecOptions → ExecOptions
without_user_args o = record o { extra_args = []; custom_args = [] }

-- Whatever arguments a user configures, and however they are quoted: each of the five command lines
-- sets a flag that the daemon blocks for that agent as often as it does without them.
pub user_args_set_nothing :
    (b : Backend) (o : ExecOptions) (c : ℕ) (f : Bytes) (m : BlockedArgMode)
    → Plain (c ∷ f)
    → mode_of (c ∷ f) (blocked_args b) ≡ some m
    → settings (c ∷ f) (command_line b o) ≡ settings (c ∷ f) (command_line b (without_user_args o))
unfolding command_line blocked_args build_claude_args build_codex_args hermes_args
    build_copilot_args build_pi_args claude_managed copilot_managed pi_managed
user_args_set_nothing claude o c f m p b =
    let user = user-settings claude_blocked_args c f m p b in
    let here = both (c ∷ f) _ _ (user o.extra_args) (user o.custom_args) in
    one-more (c ∷ f) (claude_managed o) _ _ here (both (c ∷ f) _ _ (user []) (user []))
user_args_set_nothing codex o c f m p b =
    let user = codex-settings c f m p b (has_managed_codex_mcp_config o.mcp_config) in
    let here = both (c ∷ f) _ _ (user o.extra_args) (user o.custom_args) in
    one-more (c ∷ f) codex_managed _ _ here (both (c ∷ f) _ _ (user []) (user []))
user_args_set_nothing hermes o c f m p b =
    let user = user-settings hermes_blocked_args c f m p b in
    one-more (c ∷ f) (codes "acp" ∷ []) _ _ (user o.custom_args) (user [])
user_args_set_nothing (copilot prompt) o c f m p b =
    let user = user-settings copilot_blocked_args c f m p b in
    one-more (c ∷ f) (copilot_managed prompt o) _ _ (user o.custom_args) (user [])
user_args_set_nothing (pi session system) o c f m p b =
    let user = user-settings pi_blocked_args c f m p b in
    one-more (c ∷ f) (pi_managed session system o) _ _ (user o.custom_args) (user [])
