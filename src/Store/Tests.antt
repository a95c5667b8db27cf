-- ===== src/Store/Tests.antt =====
-- Small tables (Store.antt) and what the operations do to them.
use meowth.Prelude.{
  ◌≡◌, refl, true, false, List, [], ◌∷◌, none, some, String, Bytes, codes, bytes_eq, is_base32_char,
  filter, ok, pos, IsPage, order_desc,
}
use meowth.Store.Secret.{validate_token_prefix}
use meowth.Store.Tokens.{
  Token, InsertTokenParams, insert_token, build_insert_token_args, insert_row, created_via_is_valid,
  has_id, hits, is_active, revoke_token, list_active_tokens_by_prefix,
}
use meowth.Store.Tokens.Keys
use meowth.Store.Tokens.Keys.{IsKeyed, run-IsKeyed}
use meowth.Store.Sessions.{
  Session, Sessions, find, is_terminal, is_running, aborted_row, mark_running_sessions_aborted,
  ListSessionsParams, list_sessions,
}
use meowth.Store.Sessions.Lifecycle
use meowth.Store.Sessions.Lifecycle.{IsOver, terminal_forever}
use meowth.Store.Sessions.Listing.{wanted, list_sessions-IsPage}

abbrev bytes_16 : Bytes
bytes_16 = 0 ∷ 1 ∷ 2 ∷ 3 ∷ 4 ∷ 5 ∷ 6 ∷ 7 ∷ 8 ∷ 9 ∷ 10 ∷ 11 ∷ 12 ∷ 13 ∷ 14 ∷ 15 ∷ []

abbrev bytes_32 : Bytes
bytes_32 =
    0 ∷ 1 ∷ 2 ∷ 3 ∷ 4 ∷ 5 ∷ 6 ∷ 7 ∷ 8 ∷ 9 ∷ 10 ∷ 11 ∷ 12 ∷ 13 ∷ 14 ∷ 15 ∷ 0 ∷ 1 ∷ 2 ∷ 3 ∷ 4 ∷ 5 ∷ 6
    ∷ 7 ∷ 8 ∷ 9 ∷ 10 ∷ 11 ∷ 12 ∷ 13 ∷ 14 ∷ 15 ∷ []

abbrev laptop : InsertTokenParams
laptop = record {
  name = codes "laptop";
  prefix = codes "mwt_ABCDE";
  token_hash = bytes_32;
  salt = bytes_16;
  created_via = "cli";
}

abbrev row : Token
row = record {
  id = "t1";
  name = codes "laptop";
  prefix = codes "mwt_ABCDE";
  token_hash = bytes_32;
  salt = bytes_16;
  created_at = 5;
  last_used_at = none;
  revoked_at = none;
  created_via = "cli";
}

abbrev revoked : Token
revoked = record row { revoked_at = some 9 }

laptop_inserted : insert_token false laptop (some "t1") 5 [] ≡ ok (row, row ∷ [])
unfolding insert_token build_insert_token_args insert_row created_via_is_valid validate_token_prefix
    bytes_eq is_base32_char has_id
laptop_inserted = refl

abbrev traffic : List Keys.Op
traffic =
    Keys.Op.insert false laptop (some "t2") 6
    ∷ Keys.Op.touch false "t1" 7
    ∷ Keys.Op.revoke false "t1" 8
    ∷ []

row-IsKeyed : IsKeyed (row ∷ [])
unfolding has_id
row-IsKeyed = (refl, tt)

run-IsKeyed_example : IsKeyed (Keys.run traffic (row ∷ []))
run-IsKeyed_example = run-IsKeyed traffic (row ∷ []) row-IsKeyed

is_gone : revoke_token false "t1" 9 (row ∷ []) ≡ ok (true, 9, revoked ∷ [])
unfolding revoke_token hits is_active
is_gone = refl

nothing_active :
    list_active_tokens_by_prefix false (codes "mwt_ABCDE") (Keys.run [] (revoked ∷ [])) ≡ ok []
unfolding list_active_tokens_by_prefix is_active Keys.run bytes_eq
nothing_active = refl

abbrev session : String → String → Session
session id status = record {
  id = id;
  backend_type = "claude";
  backend_session_id = [];
  status = status;
  started_at = 1;
  ended_at = none;
  thread_name = "";
  model = "";
  daemon_pid = 1;
  error = "";
  duration_ms = pos 0;
  usage_json = "";
}

abbrev left_over : Sessions
left_over = session "a" "running" ∷ session "b" "completed" ∷ []

b-IsOver : IsOver (find "b" left_over)
unfolding find is_terminal
b-IsOver = refl

terminal_forever_example :
    IsOver (find "b" (Lifecycle.run (Lifecycle.Op.abort_running false false 3 ∷ []) left_over))
terminal_forever_example =
    terminal_forever "b" (Lifecycle.Op.abort_running false false 3 ∷ []) left_over b-IsOver

abbrev cleaned_up : Sessions
cleaned_up = aborted_row 3 (session "a" "running") ∷ session "b" "completed" ∷ []

one_aborted : mark_running_sessions_aborted false false 3 left_over ≡ ok (1, cleaned_up)
unfolding mark_running_sessions_aborted is_running
one_aborted = refl

abbrev running_only : ListSessionsParams
running_only = record { statuses = "running" ∷ []; before = none; limit = 5 }

one_listed : list_sessions false running_only left_over ≡ ok (session "a" "running" ∷ [])
unfolding list_sessions order_desc
one_listed = refl

list_sessions-IsPage_example :
    IsPage
      (λ (s : Session). s.started_at)
      5
      (session "a" "running" ∷ [])
      (filter (wanted running_only) left_over)
list_sessions-IsPage_example =
    list_sessions-IsPage running_only left_over (session "a" "running" ∷ []) one_listed
