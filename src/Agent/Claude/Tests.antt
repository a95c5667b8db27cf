-- ===== src/Agent/Claude/Tests.antt =====
-- Runs of the claude backend (Agent/Claude.antt).
use meowth.Prelude.{
  ◌≡◌, refl, true, false, ◌&&◌, List, [], ◌∷◌, none, some, every, String, str_eq, if◌then◌else◌,
  All, codes, is_blank, bytes_eq,
}
use meowth.Agent.Json.{Json, bool, string, Fields, end, field, get, replace}
use meowth.Agent.Messages.{failed, live}
use meowth.Agent.Copilot.Runs.{is_completed, is_live, exits_well}
use meowth.Agent.Claude.{
  ClaudeMessage, tool_result_block, user, system, result, control_request, initial, is_true,
  force_foreground, run_claude, ClaudeEnd, finish_claude, on_claude_message, handle_control_request,
  user_blocks, tool_result_has_async_launch, map_has_async_launch_status,
}
use meowth.Agent.Claude.Runs.{is_fine, prompt_landed, completed_iff_fine}
use meowth.Agent.Claude.Foreground.{Foreground, answers-Foreground}

abbrev process_end : ClaudeEnd
process_end = record {
  context = live;
  timeout_text = [];
  write_error = none;
  exit_error = none;
  stderr_tail = [];
  resume_session_id = codes "old";
}

abbrev lines : List ClaudeMessage
lines =
    system (codes "new")
    ∷ control_request (codes "r1") (
        some (some (field "cmd" (string (codes "ls")) (field "run_in_background" (bool true) end))))
    ∷ result (record {
      session_id = codes "new";
      result_text = codes "no";
      is_error = true;
      model = "";
      usage = none;
      model_usage = [];
    })
    ∷ []

answered_once :
    (run_claude "opus" lines initial).1.responses
    ≡ (codes "r1", field "cmd" (string (codes "ls")) (field "run_in_background" (bool false) end))
      ∷ []
unfolding run_claude on_claude_message handle_control_request force_foreground get replace
answered_once = refl

async_launch_seen :
    (run_claude "opus"
      (user (
          some (
            tool_result_block
              (codes "c")
              (some ([], some (Json.object (field "status" (string (codes "async_launched")) end))))
            ∷ []))
        ∷ [])
      initial).1.saw_async_launch
    ≡ true
unfolding run_claude on_claude_message user_blocks tool_result_has_async_launch
    map_has_async_launch_status get bytes_eq
async_launch_seen = refl

run_fails : (finish_claude process_end (run_claude "opus" lines initial).1).status ≡ failed
unfolding finish_claude run_claude on_claude_message handle_control_request
run_fails = refl

resumes : is_blank process_end.resume_session_id ≡ false
unfolding is_blank
resumes = refl

completed_iff_fine_example :
    let st = (run_claude "opus" lines initial).1 in
    is_completed (finish_claude process_end st).status ≡ (
      ((every is_fine lines && exits_well process_end.exit_error)
        && prompt_landed process_end.write_error st.session_id)
      && is_live process_end.context)
completed_iff_fine_example = completed_iff_fine "opus" lines process_end

answers-Foreground_example :
    All Foreground (run_claude "opus" lines initial).1.responses
    × ((k : String) (fs : Fields)
        → get k (force_foreground fs) ≡ (
            if str_eq "run_in_background" k && is_true (get "run_in_background" fs)
            then some (bool false)
            else get k fs))
answers-Foreground_example = answers-Foreground "opus" lines
