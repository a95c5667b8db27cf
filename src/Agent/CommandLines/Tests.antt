-- ===== src/Agent/CommandLines/Tests.antt =====
-- Command lines of agents (Agent/CommandLines.antt).
use meowth.Prelude.{◌≡◌, refl, true, [], ◌∷◌, some, codes, pos, bytes_eq, has_prefix, trim_space}
use meowth.Agent.Arguments.{
  with_value, filter_custom_args, unshell_quote_arg, mode_of, resolve_session_id, merge_env,
  inline_value, strip_surrounding_quotes, is_filtered_child_env_key, env_key, flag_of, cut,
}
use meowth.Agent.CommandLines.{
  ExecOptions, build_claude_args, claude_blocked_args, filter_codex_custom_config_overrides,
  split_pi_model, decimal, is_override, is_managed_mcp_key,
}
use meowth.Agent.CommandLines.Owned.{
  claude, settings, command_line, without_user_args, Plain, blocked_args, user_args_set_nothing,
}

abbrev options : ExecOptions
options = record {
  model = codes "opus";
  system_prompt = [];
  max_turns = pos 12;
  resume_session_id = [];
  extra_args = [];
  custom_args =
      codes "'--output-format'" ∷ codes "text" ∷ codes "--effort=max" ∷ codes "--add-dir" ∷ [];
  mcp_config = [];
  thinking_level = codes "high";
  cwd = [];
  thread_name = [];
}

quoted_flag_dropped :
    filter_custom_args options.custom_args claude_blocked_args ≡ codes "--add-dir" ∷ []
unfolding filter_custom_args mode_of bytes_eq inline_value unshell_quote_arg has_prefix
    strip_surrounding_quotes
quoted_flag_dropped = refl

claude_line :
    build_claude_args options
    ≡ codes "-p"
      ∷ codes "--output-format"
      ∷ codes "stream-json"
      ∷ codes "--input-format"
      ∷ codes "stream-json"
      ∷ codes "--verbose"
      ∷ codes "--strict-mcp-config"
      ∷ codes "--permission-mode"
      ∷ codes "bypassPermissions"
      ∷ codes "--disallowedTools"
      ∷ codes "AskUserQuestion"
      ∷ codes "--model"
      ∷ codes "opus"
      ∷ codes "--effort"
      ∷ codes "high"
      ∷ codes "--max-turns"
      ∷ codes "12"
      ∷ codes "--add-dir"
      ∷ []
unfolding build_claude_args decimal filter_custom_args mode_of bytes_eq inline_value
    unshell_quote_arg has_prefix strip_surrounding_quotes
claude_line = refl

override_dropped :
    filter_codex_custom_config_overrides
      (codes "-c" ∷ codes "mcp_servers.fetch=1" ∷ codes "-c" ∷ codes "model=o3" ∷ [])
    ≡ codes "-c" ∷ codes "model=o3" ∷ []
unfolding filter_codex_custom_config_overrides is_override inline_value bytes_eq is_managed_mcp_key
    has_prefix
override_dropped = refl

provider_split : split_pi_model (codes " openai / gpt ") ≡ (codes "openai", codes "gpt")
unfolding split_pi_model trim_space
provider_split = refl

fresh_session_hidden : resolve_session_id (codes "a") (codes "b") true ≡ []
unfolding resolve_session_id bytes_eq
fresh_session_hidden = refl

markers_dropped :
    merge_env (codes "CLAUDECODE=1" ∷ codes "PATH=/bin" ∷ []) ((codes "K", codes "v") ∷ [])
    ≡ codes "PATH=/bin" ∷ codes "K=v" ∷ []
unfolding merge_env is_filtered_child_env_key bytes_eq env_key flag_of cut has_prefix
markers_dropped = refl

effort-Plain : Plain (codes "--effort")
unfolding cut
effort-Plain = refl

effort_blocked : mode_of (codes "--effort") (blocked_args claude) ≡ some with_value
unfolding mode_of blocked_args bytes_eq
effort_blocked = refl

user_args_set_nothing_example :
    settings (codes "--effort") (command_line claude options)
    ≡ settings (codes "--effort") (command_line claude (without_user_args options))
user_args_set_nothing_example =
    user_args_set_nothing claude options b'-' (codes "-effort") with_value effort-Plain
      effort_blocked
