-- ===== src/Agent/Codex/Tests.antt =====
-- Runs of the codex backend (Agent/Codex.antt).
use meowth.Prelude.{
  ℕ, ◌≤◌, ◌≡◌, refl, true, false, [], ◌∷◌, ◌++◌, All, Option, none, some, if◌then◌else◌, Bytes,
  bytes_eq, codes, is_blank, ℤ, pos, map, ◌+◌, split_on, ok, has_prefix, trim_space, join,
}
use meowth.Agent.CommandLines.{ExecOptions, skip_re_space}
use meowth.Agent.Json.{
  Json, null, number, string, array, cons, nil, object, Fields, end, field, get,
}
use meowth.Agent.Codex.{CodexClient, raw, new_client, mark_process_exited, set_turn_error}
use meowth.Agent.Codex.Correlation.{ask, hear, run_ops, count, answered_once}
use meowth.Agent.Codex.Notifications.{
  handle_raw_notification, handle_lines, handle_line, handle_notification,
}
use meowth.Agent.Codex.Reading.{
  extract_nested_string, is_foreign, extract_usage_from_map, text_of, fields_of,
}
use meowth.Agent.Codex.Notifications.Turns.{turn_ends_once}
use meowth.Agent.Codex.Turn.{
  first_wait, active, no_progress, times_out, first_turn_no_progress, wait_turn, is_progress,
  wait_step,
}
use meowth.Agent.Codex.Turn.Progress.{heard, is_stalled, no_progress_ends}
use meowth.Agent.Codex.Threads.{
  Answer, replied, refused, other, start_run, start_or_resume_thread, is_codex_transport_error,
  extract_thread_id,
}
use meowth.Agent.Codex.Toml.{
  render_codex_mcp_servers_block, codex_toml_basic_string, tables, sort_by_key,
  is_codex_bare_toml_key, server_lines, json_value_to_codex_toml_inline, codex_toml_key, escaped,
  escape,
}
use meowth.Agent.Codex.Toml.Strings.{read_basic_string, read-basic_string}
use meowth.Agent.Codex.Toml.Tables.{
  is_mcp_table_header, strip_lines, strip_codex_user_mcp_server_tables,
}
use meowth.Agent.Codex.Threads.Effort.{Carries, effort_carried}

abbrev int64_of : Bytes → Option ℤ
int64_of n = some (pos 7)

abbrev id_of : Json → Option ℕ
id_of (number n) = some 1
id_of v = none

abbrev client : CodexClient
client = record new_client { thread_id = codes "t1"; protocol = raw; turn_started = true }

abbrev turn : Bytes → Fields → Fields
turn status more = field "threadId" (string (codes "t1")) (
    field "turn" (object (field "id" (string (codes "u1")) (field "status" (string status) more)))
      end)

abbrev item_line : Fields
item_line = field "method" (string (codes "item/completed")) (
    field "params"
      (object (
        field "item"
          (object (
            field "type" (string (codes "agentMessage"))
              (field "text" (string (codes "done")) end)))
          end))
      end)

turn_fails :
    (handle_raw_notification int64_of
      (codes "turn/completed")
      (turn (codes "failed") end)
      client).1.turn_error
    ≡ codes "codex turn failed"
unfolding handle_raw_notification get is_blank bytes_eq extract_nested_string set_turn_error
    extract_usage_from_map
turn_fails = refl

item_speaks : (handle_lines int64_of id_of (some item_line ∷ []) client).1 ≡ client
unfolding handle_lines handle_line get handle_notification bytes_eq text_of has_prefix
    handle_raw_notification fields_of
item_speaks = refl

named : is_blank (extract_nested_string (turn (codes "completed") end) ("turn" ∷ "id" ∷ [])) ≡ false
unfolding extract_nested_string is_blank get
named = refl

own : is_foreign client.thread_id (get "threadId" (turn (codes "completed") end)) ≡ false
unfolding is_foreign get is_blank bytes_eq
own = refl

turn_ends_once_example :
    let ended =
      (handle_raw_notification int64_of
        (codes "turn/completed")
        (turn (codes "completed") end)
        client).1 in
    let later = (handle_lines int64_of id_of (some item_line ∷ none ∷ []) ended).1 in
    let again =
      handle_raw_notification int64_of (codes "turn/completed") (turn (codes "failed") end) later in
    (again.0 ≡ []) × (again.1.usage ≡ later.usage)
unfolding extract_nested_string get
turn_ends_once_example =
    turn_ends_once int64_of id_of (turn (codes "completed") end) (turn (codes "failed") end)
      (some item_line ∷ none ∷ []) client named refl own

abbrev failing : CodexClient
failing = record client { turn_error = codes "overloaded" }

error_set : is_blank failing.turn_error ≡ false
unfolding is_blank
error_set = refl

answered_once_example :
    let ops =
      ask false (codes "initialize") null
      ∷ hear (some 1) end
      ∷ ask false (codes "turn/start") null
      ∷ [] in
    (count 1 (run_ops ops new_client).deliveries ≤ 1)
    × ((mark_process_exited (run_ops ops new_client)).pending ≡ [])
    × (count 1 (mark_process_exited (run_ops ops new_client)).deliveries
        ≡ count 1 (run_ops ops new_client).pending + count 1 (run_ops ops new_client).deliveries)
answered_once_example =
    answered_once
      (ask false (codes "initialize") null
        ∷ hear (some 1) end
        ∷ ask false (codes "turn/start") null
        ∷ [])
      1

goes_on :
    (wait_turn [] []
      (active (codes "status:running") ∷ active (codes "error:retry") ∷ [])
      first_wait).1
    ≡ none
unfolding wait_turn wait_step
goes_on = refl

stalls : is_stalled (codes "status:running" ∷ codes "error:retry" ∷ []) ≡ true
unfolding is_stalled bytes_eq is_progress is_blank
stalls = refl

no_progress_ends_example :
    (wait_turn [] []
      ((active (codes "status:running") ∷ active (codes "error:retry") ∷ []) ++ no_progress ∷ [])
      first_wait).1
    ≡ (if is_stalled (heard (active (codes "status:running") ∷ active (codes "error:retry") ∷ []))
        then some (times_out first_turn_no_progress)
        else none)
no_progress_ends_example =
    no_progress_ends [] [] (active (codes "status:running") ∷ active (codes "error:retry") ∷ [])
      goes_on

abbrev options : ExecOptions
options = record {
  model = [];
  system_prompt = [];
  max_turns = pos 0;
  resume_session_id = codes "old";
  extra_args = [];
  custom_args = [];
  mcp_config = [];
  thinking_level = codes "high";
  cwd = codes "/w";
  thread_name = codes " a ";
}

-- The prior thread is unknown.
abbrev answers : Bytes → Fields → Answer
answers method params =
    if bytes_eq method (codes "thread/resume")
    then refused (other (codes "no rollout found"))
    else replied (object (field "thread" (object (field "id" (string (codes "new")) end)) end))

falls_back :
    map (λ call. call.0) (start_run answers (codes "hi") options).0
    ≡ codes "initialize"
      ∷ codes "initialized"
      ∷ codes "thread/resume"
      ∷ codes "thread/start"
      ∷ codes "thread/name/set"
      ∷ codes "turn/start"
      ∷ []
unfolding start_run bytes_eq start_or_resume_thread is_blank is_codex_transport_error has_prefix
    extract_thread_id extract_nested_string get fields_of trim_space
falls_back = refl

effort_carried_example : All (Carries options) (start_run answers (codes "hi") options).0
effort_carried_example = effort_carried options answers (codes "hi")

abbrev user_config : Bytes
user_config =
    codes
      "model = \"x\"\n [ mcp_servers . \"a b\" ] # mine\ncommand = \"y\"\n[mcp_servers.a.env]\nk = 1\n[tools]\nweb = true"

user_tables_go :
    strip_codex_user_mcp_server_tables user_config ≡ codes "model = \"x\"\n[tools]\nweb = true"
unfolding strip_codex_user_mcp_server_tables join strip_lines split_on is_mcp_table_header
    skip_re_space has_prefix trim_space is_blank
user_tables_go = refl

abbrev server : Fields
server =
    field "fetch"
      (object (
        field "command" (string (codes "uvx"))
          (field "args" (array (cons (string (codes "a\"b")) nil)) end)))
      end

rendered :
    render_codex_mcp_servers_block (λ n. n) server
    ≡ ok (
        codes
          "# BEGIN multica-managed mcp_servers (do not edit; regenerated by daemon)\n[mcp_servers.fetch]\nargs = [\"a\\\"b\"]\ncommand = \"uvx\"\n# END multica-managed mcp_servers\n")
unfolding render_codex_mcp_servers_block tables sort_by_key is_codex_bare_toml_key is_blank
    server_lines json_value_to_codex_toml_inline join codex_toml_key codex_toml_basic_string escaped
    escape
rendered = refl

read-basic_string_example :
    read_basic_string (codex_toml_basic_string (codes "a\"\n") ++ codes "\nx")
    ≡ some (codes "a\"\n", codes "\nx")
read-basic_string_example = read-basic_string (codes "a\"\n") (codes "\nx")
