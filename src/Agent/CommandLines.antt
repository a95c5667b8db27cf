-- ===== src/Agent/CommandLines.antt =====
-- The command lines of the agents: buildClaudeArgs, buildCopilotArgs, buildPiArgs, buildCodexArgs
-- and the arguments of hermes, in daemon/pkg/agent.
pub mod Owned
pub mod Tests
use meowth.Prelude.{
  ℕ, zero, suc, ◌+◌, ◌*◌, ◌/◌, ◌%◌, Bool, true, false, not, ◌&&◌, ◌||◌, List, [], ◌∷◌, ◌++◌, Option,
  none, some, ltb, leb, ◌==◌, if◌then◌else◌, length, drop, Bytes, codes, bytes_eq, has_prefix,
  trim_space, is_space, ℤ, pos, negsuc,
}
use meowth.Agent.Arguments.{
  BlockedArgs, with_value, standalone, lead, inline_value, filter_custom_args,
}

-- The part of `ExecOptions` that the command lines read.
pub record ExecOptions : Type 0 where
  pub model : Bytes
  pub system_prompt : Bytes
  pub max_turns : ℤ
  pub resume_session_id : Bytes
  pub extra_args : List Bytes
  pub custom_args : List Bytes
  pub mcp_config : Bytes
  pub thinking_level : Bytes
  pub cwd : Bytes
  pub thread_name : Bytes

-- `fmt.Sprintf("%d", n)`, the digits of `n` before `acc`; `fuel` above `n` is enough.
decimal_from : ℕ → ℕ → Bytes → Bytes
decimal_from zero n acc = acc
decimal_from (suc fuel) n acc =
    let more = decimal_from fuel (n / 10) ((b'0' + n % 10) ∷ acc) in
    if ltb n 10 then (b'0' + n) ∷ acc else more

unfoldable pub decimal : ℕ → Bytes
unfolding decimal_from
decimal n = decimal_from (suc n) n []

-- A flag with a value, where the value is not empty.
unfoldable pub option : Bytes → Bytes → List Bytes
option flag [] = []
option flag (c ∷ value) = flag ∷ (c ∷ value) ∷ []

max_turns_option : ℤ → List Bytes
max_turns_option (pos zero) = []
max_turns_option (pos (suc n)) = codes "--max-turns" ∷ decimal (suc n) ∷ []
max_turns_option (negsuc n) = []

abbrev pub claude_blocked_args : BlockedArgs
claude_blocked_args =
    (codes "-p", standalone)
    ∷ (codes "--output-format", with_value)
    ∷ (codes "--input-format", with_value)
    ∷ (codes "--permission-mode", with_value)
    ∷ (codes "--mcp-config", with_value)
    ∷ (codes "--effort", with_value)
    ∷ []

abbrev pub copilot_blocked_args : BlockedArgs
copilot_blocked_args =
    (codes "-p", with_value)
    ∷ (codes "--output-format", with_value)
    ∷ (codes "--allow-all", standalone)
    ∷ (codes "--allow-all-tools", standalone)
    ∷ (codes "--allow-all-paths", standalone)
    ∷ (codes "--allow-all-urls", standalone)
    ∷ (codes "--yolo", standalone)
    ∷ (codes "--no-ask-user", standalone)
    ∷ (codes "--resume", with_value)
    ∷ (codes "--acp", standalone)
    ∷ []

abbrev pub pi_blocked_args : BlockedArgs
pi_blocked_args =
    (codes "-p", standalone)
    ∷ (codes "--print", standalone)
    ∷ (codes "--mode", with_value)
    ∷ (codes "--session", with_value)
    ∷ []

abbrev pub codex_blocked_args : BlockedArgs
codex_blocked_args = (codes "--listen", with_value) ∷ (codes "--yolo", standalone) ∷ []

abbrev pub hermes_blocked_args : BlockedArgs
hermes_blocked_args = (codes "acp", standalone) ∷ []

-- What `buildClaudeArgs` writes before the user's arguments.
unfoldable pub claude_managed : ExecOptions → List Bytes
unfolding option max_turns_option
claude_managed o =
    (codes "-p"
      ∷ codes "--output-format"
      ∷ codes "stream-json"
      ∷ codes "--input-format"
      ∷ codes "stream-json"
      ∷ codes "--verbose"
      ∷ codes "--strict-mcp-config"
      ∷ codes "--permission-mode"
      ∷ codes "bypassPermissions"
      ∷ codes "--disallowedTools"
      ∷ codes "AskUserQuestion"
      ∷ [])
    ++ option (codes "--model") o.model
    ++ option (codes "--effort") o.thinking_level
    ++ max_turns_option o.max_turns
    ++ option (codes "--append-system-prompt") o.system_prompt
    ++ option (codes "--resume") o.resume_session_id

unfoldable pub build_claude_args : ExecOptions → List Bytes
unfolding claude_managed
build_claude_args o =
    claude_managed o
    ++ (filter_custom_args o.extra_args claude_blocked_args
        ++ filter_custom_args o.custom_args claude_blocked_args)

copilot_managed : Bytes → ExecOptions → List Bytes
unfolding option
copilot_managed prompt o =
    (codes "-p"
      ∷ prompt
      ∷ codes "--output-format"
      ∷ codes "json"
      ∷ codes "--allow-all"
      ∷ codes "--no-ask-user"
      ∷ [])
    ++ option (codes "--model") o.model
    ++ option (codes "--resume") o.resume_session_id

unfoldable pub build_copilot_args : Bytes → ExecOptions → List Bytes
unfolding copilot_managed
build_copilot_args prompt o =
    copilot_managed prompt o ++ filter_custom_args o.custom_args copilot_blocked_args

-- `strings.Index(s, "/")`, as what stands before and behind it.
cut_slash : Bytes → Option (Bytes × Bytes)
unfolding lead
cut_slash [] = none
cut_slash (c ∷ s) = let rest = lead c (cut_slash s) in if c == b'/' then some ([], s) else rest

trimmed_parts : Bytes → Option (Bytes × Bytes) → Bytes × Bytes
trimmed_parts s none = ([], s)
trimmed_parts s (some (a, b)) = (trim_space a, trim_space b)

-- `splitPiModel`: the provider and the model.
unfoldable pub split_pi_model : Bytes → Bytes × Bytes
unfolding cut_slash trimmed_parts
split_pi_model s = trimmed_parts (trim_space s) (cut_slash (trim_space s))

pi_managed : Bytes → Bytes → ExecOptions → List Bytes
unfolding option
pi_managed session_path system_prompt_path o =
    (codes "-p" ∷ codes "--mode" ∷ codes "json" ∷ [])
    ++ option (codes "--session") session_path
    ++ (option (codes "--provider") (split_pi_model o.model).0
        ++ option (codes "--model") (split_pi_model o.model).1)
    ++ option (codes "--append-system-prompt") system_prompt_path

unfoldable pub build_pi_args : Bytes → Bytes → ExecOptions → List Bytes
unfolding pi_managed
build_pi_args session_path system_prompt_path o =
    pi_managed session_path system_prompt_path o ++ filter_custom_args o.custom_args pi_blocked_args

-- White space of a regular expression.
unfoldable pub is_re_space : ℕ → Bool
is_re_space c = c == 9 || c == 10 || c == 12 || c == 13 || c == b' '

unfoldable pub skip_re_space : Bytes → Bytes
unfolding is_re_space
skip_re_space [] = []
skip_re_space (c ∷ s) = let rest = skip_re_space s in if is_re_space c then rest else c ∷ s

ends_key : Bytes → Bool
ends_key [] = true
ends_key (c ∷ s) = c == b'.' || c == b'='

-- `codexManagedMcpConfigKeyRe`
unfoldable pub is_managed_mcp_key : Bytes → Bool
unfolding skip_re_space ends_key
is_managed_mcp_key value =
    let s = skip_re_space value in
    has_prefix s (codes "mcp_servers") && ends_key (skip_re_space (drop 11 s))

is_config_flag : Bytes → Bool
is_config_flag flag = bytes_eq flag (codes "-c") || bytes_eq flag (codes "--config")

-- The argument, with the one behind it, overrides the managed configuration.
unfoldable pub is_override : Bytes → Bytes → Option (Bytes × Bytes) → Bool
unfolding is_config_flag
is_override arg next none = is_config_flag arg && is_managed_mcp_key next
is_override arg next (some (flag, value)) = is_config_flag flag && is_managed_mcp_key value

-- `filterCodexCustomConfigOverrides`
unfoldable pub filter_codex_custom_config_overrides : List Bytes → List Bytes
filter_codex_custom_config_overrides [] = []
filter_codex_custom_config_overrides (arg ∷ []) =
    if is_override arg [] (inline_value arg) then [] else arg ∷ []
filter_codex_custom_config_overrides (arg ∷ next ∷ args) =
    let one = filter_codex_custom_config_overrides (next ∷ args) in
    let two = filter_codex_custom_config_overrides args in
    let dropped : List Bytes = elim (inline_value arg) [ none ↦ two | some p ↦ one ] in
    if is_override arg next (inline_value arg) then dropped else arg ∷ one

unfoldable pub has_managed_codex_mcp_config : Bytes → Bool
has_managed_codex_mcp_config raw =
    not (length (trim_space raw) == 0) && not (bytes_eq (trim_space raw) (codes "null"))

codex_user_args : Bool → List Bytes → List Bytes
codex_user_args managed args =
    if managed
    then filter_codex_custom_config_overrides (filter_custom_args args codex_blocked_args)
    else filter_custom_args args codex_blocked_args

abbrev pub codex_managed : List Bytes
codex_managed = codes "--yolo" ∷ codes "app-server" ∷ codes "--listen" ∷ codes "stdio://" ∷ []

unfoldable pub build_codex_args : ExecOptions → List Bytes
unfolding codex_user_args
build_codex_args o =
    let managed = has_managed_codex_mcp_config o.mcp_config in
    codex_managed ++ (codex_user_args managed o.extra_args ++ codex_user_args managed o.custom_args)

-- The arguments in hermesBackend.Execute.
unfoldable pub hermes_args : ExecOptions → List Bytes
hermes_args o = codes "acp" ∷ filter_custom_args o.custom_args hermes_blocked_args
