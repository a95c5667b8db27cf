-- ===== src/Agent/Codex/Diagnostics.antt =====
-- The texts of codex's timeouts, and the error and the usage of its result, in
-- daemon/pkg/agent/codex.go. The format %q is an argument.
use meowth.Prelude.{
  ◌&&◌, ◌||◌, [], ◌∷◌, ◌++◌, Option, none, some, String, str_eq, if◌then◌else◌, Bytes, codes,
  is_blank, trim_space, contains_text, is_positive,
}
use meowth.Pump.{TokenUsage}
use meowth.Agent.Messages.{Usage}
use meowth.Agent.StderrTail.{with_agent_stderr}
use meowth.Agent.Codex.Reading.{is_zero}
use meowth.Agent.Codex.Turn.{TimeoutKind, semantic_inactivity, first_turn_no_progress, TurnEnd}

-- `codexTimeoutDiagnostic`
pub record Diagnostic : Type 0 where
  pub kind : TimeoutKind
  pub timeout_text : Bytes
  pub last_activity : Bytes
  pub thread_id : Bytes
  pub turn_id : Bytes
  pub model : Bytes
  pub codex_version : Bytes

or_else : Bytes → Bytes → Bytes
or_else other value = if is_blank (trim_space value) then other else value

catalog_signal : Bytes
catalog_signal =
    codes "failed to refresh available models: timeout waiting for child process to exit"

-- `appendCodexKnownStderrHint`
unfoldable pub append_codex_known_stderr_hint : Bytes → Bytes → Bytes
unfolding catalog_signal
append_codex_known_stderr_hint msg stderr =
    if contains_text stderr catalog_signal
    then msg
      ++ codes
          "; diagnosis: Codex stderr shows the model catalog refresh timed out. Try setting an explicit model, switching Codex CLI versions, or using another runtime while Codex app-server recovers"
    else msg

module _ (quoted : Bytes → Bytes) where
  -- `formatCodexDiagnosticFields`
  diagnostic_fields : Diagnostic → Bytes
  unfolding or_else
  diagnostic_fields d =
      codes "codex_version="
      ++ quoted (or_else (codes "unknown") d.codex_version)
      ++ codes " thread_id="
      ++ quoted (or_else (codes "unknown") d.thread_id)
      ++ codes " turn_id="
      ++ quoted (or_else (codes "unknown") d.turn_id)
      ++ codes " model="
      ++ quoted (or_else (codes "default(empty)") d.model)

  timeout_message : TimeoutKind → Diagnostic → Bytes
  unfolding or_else diagnostic_fields
  timeout_message first_turn_no_progress d =
      codes "codex app-server no progress timeout after "
      ++ d.timeout_text
      ++ codes ": received turn start but no item, message, tool, turn/completed, or error event ("
      ++ diagnostic_fields d
      ++ codes ")"
  timeout_message semantic_inactivity d =
      codes "codex semantic inactivity timeout after "
      ++ d.timeout_text
      ++ codes " without agent progress (last activity: "
      ++ or_else (codes "unknown") d.last_activity
      ++ codes "; "
      ++ diagnostic_fields d
      ++ codes ")"

  -- `buildCodexTimeoutDiagnosticError`
  unfoldable pub build_codex_timeout_diagnostic_error : Diagnostic → Bytes → Bytes
  unfolding timeout_message
  build_codex_timeout_diagnostic_error d stderr =
      with_agent_stderr (append_codex_known_stderr_hint (timeout_message d.kind d) stderr)
        (codes "codex") stderr

  -- The error of the result, once the child's stderr is whole.
  unfoldable pub final_error : (TimeoutKind → Diagnostic) → TurnEnd → Bytes → Bytes
  final_error diagnostic e stderr =
      let of_process : Bytes = elim e.process_error [
        | none ↦ e.error
        | some why ↦ with_agent_stderr why (codes "codex") stderr
      ] in
      elim e.timeout_kind [
        | none ↦ of_process
        | some kind ↦ build_codex_timeout_diagnostic_error (diagnostic kind) stderr
      ]

-- Usage as the run counts it, or else as the session's log has it, with the log's model where the
-- options name none.
unfoldable pub final_usage : TokenUsage → Option (TokenUsage × String) → String → Usage
final_usage counted scanned model =
    let silent = is_zero counted.input_tokens && is_zero counted.output_tokens in
    let u : TokenUsage =
      if silent then elim scanned [ none ↦ counted | some s ↦ s.0 ] else counted in
    let named =
      if silent && str_eq model "" then elim scanned [ none ↦ model | some s ↦ s.1 ] else model in
    if is_positive u.input_tokens
      || is_positive u.output_tokens
      || is_positive u.cache_read_tokens
      || is_positive u.cache_write_tokens
    then (if str_eq named "" then "unknown" else named, u) ∷ []
    else []
