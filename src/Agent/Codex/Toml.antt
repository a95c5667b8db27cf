-- ===== src/Agent/Codex/Toml.antt =====
-- The managed MCP servers in codex's config.toml: the rendering of JSON as TOML and the removal of the
-- user's own tables, in daemon/pkg/agent/codex.go. Texts are valid UTF-8, whose bytes above ASCII pass
-- through; the decimal text of a number is an argument.
pub mod Strings
pub mod Tables
use meowth.Prelude.{
  ℕ, ◌+◌, ◌-◌, ◌/◌, ◌%◌, Bool, true, false, not, ◌&&◌, ◌||◌, List, [], ◌∷◌, ◌++◌, Option, none,
  some, Result, ok, err, String, if◌then◌else◌, Bytes, codes, bytes_eq, is_blank, ltb, leb, ◌==◌,
  has_prefix, trim_space, join, every,
}
use meowth.Agent.CommandLines.{is_re_space, skip_re_space}
use meowth.Agent.Json.{
  Json, null, bool, number, string, array, object, Items, nil, cons, Fields, end, field, get,
}

-- A digit of `%04x`.
hex_digit : ℕ → ℕ
hex_digit d = if ltb d 10 then b'0' + d else b'a' + (d - 10)

is_toml_control : ℕ → Bool
is_toml_control c = ltb c 32 || c == 127

-- `codexTOMLBasicString`, of one character.
unfoldable pub escape : ℕ → Bytes
unfolding hex_digit is_toml_control
escape c =
    if c == 92
    then 92 ∷ 92 ∷ []
    else if c == 34
    then 92 ∷ 34 ∷ []
    else if c == 8
    then 92 ∷ b'b' ∷ []
    else if c == 9
    then 92 ∷ b't' ∷ []
    else if c == 10
    then 92 ∷ b'n' ∷ []
    else if c == 12
    then 92 ∷ b'f' ∷ []
    else if c == 13
    then 92 ∷ b'r' ∷ []
    else if is_toml_control c
    then 92 ∷ b'u' ∷ b'0' ∷ b'0' ∷ hex_digit (c / 16) ∷ hex_digit (c % 16) ∷ []
    else c ∷ []

unfoldable pub escaped : Bytes → Bytes
escaped [] = []
escaped (c ∷ s) = escape c ++ escaped s

unfoldable pub codex_toml_basic_string : Bytes → Bytes
codex_toml_basic_string s = 34 ∷ escaped s ++ 34 ∷ []

is_bare : ℕ → Bool
is_bare c =
    leb b'a' c && leb c b'z'
    || leb b'A' c && leb c b'Z'
    || leb b'0' c && leb c b'9'
    || c == b'_'
    || c == b'-'

-- `isCodexBareTomlKey`
unfoldable pub is_codex_bare_toml_key : Bytes → Bool
unfolding is_bare
is_codex_bare_toml_key s = not (is_blank s) && every is_bare s

-- `codexTOMLKey`
unfoldable pub codex_toml_key : Bytes → Bytes
codex_toml_key s = if is_codex_bare_toml_key s then s else codex_toml_basic_string s

-- The order of Go's strings.
bytes_leb : Bytes → Bytes → Bool
bytes_leb [] t = true
bytes_leb (c ∷ s) [] = false
bytes_leb (c ∷ s) (d ∷ t) = ltb c d || c == d && bytes_leb s t

module _ {A : Type 0} where
  insert_by_key : Bytes × A → List (Bytes × A) → List (Bytes × A)
  unfolding bytes_leb
  insert_by_key p [] = p ∷ []
  insert_by_key p (q ∷ qs) =
      let rest = insert_by_key p qs in if bytes_leb p.0 q.0 then p ∷ q ∷ qs else q ∷ rest

  -- `sort.Strings` of the keys; they are distinct.
  unfoldable pub sort_by_key : List (Bytes × A) → List (Bytes × A)
  unfolding insert_by_key
  sort_by_key [] = []
  sort_by_key (p ∷ ps) = insert_by_key p (sort_by_key ps)

assignments : List (Bytes × Bytes) → List Bytes
assignments [] = []
assignments ((key, text) ∷ ps) = (codex_toml_key key ++ codes " = " ++ text) ∷ assignments ps

module _ (number_text : Bytes → Bytes) where
  -- `jsonValueToCodexTOMLInline`: none for the error, which is of a null.
  unfoldable mutual
    unfolding assignments

    pub json_value_to_codex_toml_inline : Json → Option Bytes
    json_value_to_codex_toml_inline null = none
    json_value_to_codex_toml_inline (bool true) = some (codes "true")
    json_value_to_codex_toml_inline (bool false) = some (codes "false")
    json_value_to_codex_toml_inline (number n) = some (number_text n)
    json_value_to_codex_toml_inline (string s) = some (codex_toml_basic_string s)
    json_value_to_codex_toml_inline (array xs) = elim (inline_items xs) [
      | none ↦ none
      | some parts ↦ some (codes "[" ++ join (codes ", ") parts ++ codes "]")
    ]
    json_value_to_codex_toml_inline (object fs) = elim (inline_fields fs) [
      | none ↦ none
      | some parts ↦
          some (codes "{ " ++ join (codes ", ") (assignments (sort_by_key parts)) ++ codes " }")
    ]

    pub inline_items : Items → Option (List Bytes)
    inline_items nil = some []
    inline_items (cons v vs) = elim (json_value_to_codex_toml_inline v) [
      | none ↦ none
      | some p ↦ elim (inline_items vs) [ none ↦ none | some ps ↦ some (p ∷ ps) ]
    ]

    pub inline_fields : Fields → Option (List (Bytes × Bytes))
    inline_fields end = some []
    inline_fields (field key v fs) = elim (json_value_to_codex_toml_inline v) [
      | none ↦ none
      | some p ↦ elim (inline_fields fs) [ none ↦ none | some ps ↦ some ((codes key, p) ∷ ps) ]
    ]

  -- A line for each key of a server, in the keys' order.
  unfoldable pub server_lines : List (Bytes × Option Bytes) → Option Bytes
  server_lines [] = some []
  server_lines ((key, none) ∷ ps) = none
  server_lines ((key, some text) ∷ ps) = elim (server_lines ps) [
    | none ↦ none
    | some rest ↦ some (codex_toml_key key ++ codes " = " ++ text ++ codes "\n" ++ rest)
  ]

  values : Fields → List (Bytes × Option Bytes)
  values end = []
  values (field key v fs) = (codes key, json_value_to_codex_toml_inline v) ∷ values fs

-- The errors of a rendering: a name that is no bare key, a server that is no object, a value that is null.
pub data McpError : Type 0 where
  bad_name not_an_object null_value : Bytes → McpError

servers : Fields → List (Bytes × Json)
servers end = []
servers (field name v fs) = (codes name, v) ∷ servers fs

begin_marker : Bytes
begin_marker = codes "# BEGIN multica-managed mcp_servers (do not edit; regenerated by daemon)"

end_marker : Bytes
end_marker = codes "# END multica-managed mcp_servers"

module _ (number_text : Bytes → Bytes) where
  server_table : Bytes → Json → Result McpError Bytes
  unfolding values
  server_table name (object fs) =
      elim (server_lines number_text (sort_by_key (values number_text fs))) [
        | none ↦ err (null_value name)
        | some lines ↦ ok (codes "[mcp_servers." ++ name ++ codes "]\n" ++ lines)
      ]
  server_table name v = err (not_an_object name)

  unfoldable pub tables : List (Bytes × Json) → Result McpError (List Bytes)
  unfolding server_table
  tables [] = ok []
  tables ((name, v) ∷ ps) =
      let rest = tables ps in
      let one : Result McpError Bytes =
        if is_codex_bare_toml_key name then server_table name v else err (bad_name name) in
      elim one [ err e ↦ err e | ok t ↦ elim rest [ err e ↦ err e | ok ts ↦ ok (t ∷ ts) ] ]

  -- `renderCodexMcpServersBlock`, of the field mcpServers of a configuration that decodes.
  unfoldable pub render_codex_mcp_servers_block : Fields → Result McpError Bytes
  unfolding servers begin_marker end_marker
  render_codex_mcp_servers_block end = ok []
  render_codex_mcp_servers_block (field name v fs) =
      elim (tables (sort_by_key (servers (field name v fs)))) [
        | err e ↦ err e
        | ok ts ↦
            ok (begin_marker ++ codes "\n" ++ join (codes "\n") ts ++ end_marker ++ codes "\n")
      ]
