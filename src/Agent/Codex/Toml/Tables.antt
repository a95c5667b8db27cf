-- ===== src/Agent/Codex/Toml/Tables.antt =====
-- The removal of the user's own tables of MCP servers from config.toml, line by line, in
-- daemon/pkg/agent/codex.go (userCodexMcpServersTableHeaderRe and stripCodexUserMcpServerTables).
use meowth.Prelude.{
  ◌≡◌, refl, Bool, true, false, not, ◌&&◌, ◌||◌, List, [], ◌∷◌, if◌then◌else◌, Bytes, codes,
  is_blank, has_prefix, drop, length, trim_space, ◌==◌, split_on, join, every, arith, Option, none,
  some,
}
use meowth.Agent.CommandLines.{is_re_space, skip_re_space}

-- `\s*\]\s*(?:#.*)?$`
closes : Bytes → Bool
closes s = elim (skip_re_space s) [
  | [] ↦ false
  | c ∷ t ↦ c == b']' && (is_blank (skip_re_space t) || has_prefix (skip_re_space t) (codes "#"))
]

-- Behind the quote that closes a key, if one does.
behind_quote : Bytes → Option Bytes
behind_quote [] = none
behind_quote (c ∷ s) = if c == 34 then some s else behind_quote s

-- Behind the longest run of characters that are neither a bracket nor space.
behind_bare : Bytes → Bytes
behind_bare [] = []
behind_bare (c ∷ s) = let rest = behind_bare s in if c == b']' || is_re_space c then c ∷ s else rest

closes_quoted : Bytes → Bool
unfolding closes behind_quote
closes_quoted [] = false
closes_quoted (c ∷ s) = c == 34 && elim (behind_quote s) [ none ↦ false | some t ↦ closes t ]

closes_bare : Bytes → Bool
unfolding closes behind_bare
closes_bare [] = false
closes_bare (c ∷ s) = not (c == b']' || is_re_space c) && closes (behind_bare (c ∷ s))

after_text : Bytes → Bytes → Option Bytes
after_text t s = if has_prefix s t then some (drop (length t) s) else none

-- `userCodexMcpServersTableHeaderRe.MatchString`
unfoldable pub is_mcp_table_header : Bytes → Bool
unfolding closes_quoted closes_bare after_text
is_mcp_table_header line = elim (after_text (codes "[") (skip_re_space line)) [
  | none ↦ false
  | some a ↦ elim (after_text (codes "mcp_servers") (skip_re_space a)) [
    | none ↦ false
    | some b ↦ elim (after_text (codes ".") (skip_re_space b)) [
      | none ↦ false
      | some c ↦ closes_quoted (skip_re_space c) || closes_bare (skip_re_space c)
    ]
  ]
]

-- Whether a line ends the table that is being skipped.
ends_table : Bytes → Bool
ends_table line =
    let trimmed = trim_space line in
    has_prefix trimmed (codes "[")
    && not
        (has_prefix trimmed (codes "[mcp_servers.") || has_prefix trimmed (codes "[ mcp_servers."))

-- The loop of `stripCodexUserMcpServerTables`.
unfoldable pub strip_lines : Bool → List Bytes → List Bytes
unfolding ends_table
strip_lines skipping [] = []
strip_lines skipping (line ∷ lines) =
    let dropped = strip_lines true lines in
    let kept = line ∷ strip_lines false lines in
    if is_mcp_table_header line
    then dropped
    else if skipping
    then if ends_table line then kept else dropped
    else kept

unfoldable pub strip_codex_user_mcp_server_tables : Bytes → Bytes
strip_codex_user_mcp_server_tables content =
    join (codes "\n") (strip_lines false (split_on 10 content))

strip-clean :
    (skipping : Bool) (lines : List Bytes)
    → every (λ line. not (is_mcp_table_header line)) (strip_lines skipping lines) ≡ true
unfolding strip_lines
strip-clean skipping [] = refl
strip-clean skipping (line ∷ lines) =
    ground (arith, strip-clean true lines, strip-clean false lines)

strip-same :
    (lines : List Bytes)
    → every (λ line. not (is_mcp_table_header line)) lines ≡ true
    → strip_lines false lines ≡ lines
unfolding strip_lines
strip-same [] h = refl
strip-same (line ∷ lines) h = ground (arith, h, strip-same lines)

-- However the tables of MCP servers are written, no line that opens one is kept; a configuration
-- without such a line is kept whole; and a second pass changes nothing.
strip_once :
    (lines : List Bytes)
    → (every (λ line. not (is_mcp_table_header line)) (strip_lines false lines) ≡ true)
      × ((every (λ line. not (is_mcp_table_header line)) lines ≡ true)
          → strip_lines false lines ≡ lines)
      × (strip_lines false (strip_lines false lines) ≡ strip_lines false lines)
strip_once lines = (
  strip-clean false lines,
  strip-same lines,
  strip-same (strip_lines false lines) (strip-clean false lines),
)
