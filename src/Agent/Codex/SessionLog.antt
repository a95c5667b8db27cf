-- ===== src/Agent/Codex/SessionLog.antt =====
-- The usage in a session's log, in daemon/pkg/agent/codex.go (parseCodexSessionFile and
-- scanCodexSessionUsage), over the lines that decode, in their order. Which files there are, and
-- which of them are as new as the run, are arguments.
use meowth.Prelude.{
  Bool, true, false, not, ◌&&◌, List, [], ◌∷◌, Option, none, some, String, str_eq, if◌then◌else◌, ℤ,
  pos, ◌+ℤ◌,
}
use meowth.Pump.{TokenUsage}
use meowth.Agent.Messages.{no_tokens}
use meowth.Agent.Codex.Reading.{is_zero, codex_uncached_input_tokens}

pub record Counts : Type 0 where
  pub input_tokens : ℤ
  pub output_tokens : ℤ
  pub cached_input_tokens : ℤ
  pub cache_read_input_tokens : ℤ
  pub reasoning_output_tokens : ℤ

pub record TokenInfo : Type 0 where
  pub total_token_usage : Option Counts
  pub last_token_usage : Option Counts
  pub model : String

-- `codexSessionTokenCount` with a payload: the types of the event and of its payload, the payload's
-- information and its model.
pub record SessionEvent : Type 0 where
  pub kind : String
  pub payload_kind : String
  pub info : Option TokenInfo
  pub model : String

pub record SessionUsage : Type 0 where
  pub usage : TokenUsage
  pub model : String
  pub found : Bool

abbrev pub nothing_found : SessionUsage
nothing_found = record { usage = no_tokens; model = ""; found = false }

counted : Counts → TokenUsage
counted c =
    let cached =
      if is_zero c.cached_input_tokens then c.cache_read_input_tokens else c.cached_input_tokens in
    record {
      input_tokens = codex_uncached_input_tokens c.input_tokens cached;
      output_tokens = c.output_tokens +ℤ c.reasoning_output_tokens;
      cache_read_tokens = cached;
      cache_write_tokens = pos 0;
    }

first_of : Option Counts → Option Counts → Option Counts
first_of none o = o
first_of (some c) o = some c

with_counts : String → Option Counts → SessionUsage → SessionUsage
unfolding counted
with_counts model none r = r
with_counts model (some c) r = record {
  usage = counted c;
  model = if str_eq model "" then r.model else model;
  found = true;
}

with_info : Option TokenInfo → SessionUsage → SessionUsage
unfolding with_counts first_of
with_info none r = r
with_info (some i) r = with_counts i.model (first_of i.total_token_usage i.last_token_usage) r

unfoldable pub on_session_event : SessionEvent → SessionUsage → SessionUsage
unfolding with_info
on_session_event e r =
    if str_eq e.kind "turn_context" && not (str_eq e.model "")
    then record r { model = e.model }
    else if str_eq e.payload_kind "token_count"
    then with_info e.info r
    else r

unfoldable pub on_session_events : List SessionEvent → SessionUsage → SessionUsage
on_session_events [] r = r
on_session_events (e ∷ es) r = on_session_events es (on_session_event e r)

-- `parseCodexSessionFile`
unfoldable pub parse_codex_session_file : List SessionEvent → Option (TokenUsage × String)
parse_codex_session_file es =
    let r = on_session_events es nothing_found in if r.found then some (r.usage, r.model) else none

last_file : List (Bool × List SessionEvent) → TokenUsage × String → TokenUsage × String
last_file [] r = r
last_file ((recent, es) ∷ files) r =
    let same = last_file files r in
    elim (if recent then parse_codex_session_file es else none) [
      | none ↦ same
      | some u ↦ last_file files u
    ]

-- `scanCodexSessionUsage`: the files of the day, each with whether it is as new as the run.
unfoldable pub scan_codex_session_usage :
    List (Bool × List SessionEvent) → Option (TokenUsage × String)
unfolding last_file
scan_codex_session_usage files =
    let r = last_file files (no_tokens, "") in
    if is_zero r.0.input_tokens && is_zero r.0.output_tokens then none else some r
