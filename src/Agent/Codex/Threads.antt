-- ===== src/Agent/Codex/Threads.antt =====
-- The start of a codex run, in daemon/pkg/agent/codex.go: the handshake, the thread that is resumed or
-- begun, and the turn. What the app-server answers to each call is an argument.
pub mod Effort
use meowth.Prelude.{
  ℕ, Bool, true, false, not, ◌&&◌, ◌||◌, List, [], ◌∷◌, ◌++◌, Option, none, some, String, str_eq,
  if◌then◌else◌, Bytes, codes, is_blank, has_prefix, trim_space,
}
use meowth.Agent.CommandLines.{ExecOptions}
use meowth.Agent.StderrTail.{with_agent_stderr}
use meowth.Agent.Json.{
  Json, null, bool, string, array, object, Items, nil, cons, Fields, end, field, get,
}
use meowth.Agent.Codex.Reading.{extract_nested_string, fields_of, is_there}

-- The error of a call: the process has exited, or another one, with its text.
pub data CallError : Type 0 where
  process_exited other : Bytes → CallError

pub data Answer : Type 0 where
  replied : Json → Answer
  refused : CallError → Answer

unfoldable pub error_text : CallError → Bytes
error_text (process_exited t) = t
error_text (other t) = t

-- `isCodexTransportError`
unfoldable pub is_codex_transport_error : CallError → Bool
is_codex_transport_error (process_exited t) = true
is_codex_transport_error (other t) = has_prefix t (codes "write ")

-- `m[key] = v`
unfoldable pub put : String → Json → Fields → Fields
put key v end = field key v end
put key v (field k w fs) =
    let rest = put key v fs in if str_eq k key then field k v fs else field k w rest

nil_if_empty : Bytes → Json
nil_if_empty s = if is_blank s then null else string s

-- `applyCodexYoloPolicy`
unfoldable pub apply_codex_yolo_policy : Fields → Fields
apply_codex_yolo_policy params =
    put "sandbox" (string (codes "danger-full-access"))
      (put "approvalPolicy" (string (codes "never")) params)

has_key : String → Fields → Bool
has_key key fs = is_there (get key fs)

-- `applyCodexReasoningEffort`
unfoldable pub apply_codex_reasoning_effort : Bytes → Fields → Fields
unfolding has_key
apply_codex_reasoning_effort level params =
    if is_blank level
    then params
    else if has_key "input" params
    then put "effort" (string level) params
    else put "config"
        (object (put "model_reasoning_effort" (string level) (fields_of (get "config" params))))
        params

-- `extractThreadID`; a result that does not decode has none.
unfoldable pub extract_thread_id : Json → Bytes
extract_thread_id r = extract_nested_string (fields_of (some r)) ("thread" ∷ "id" ∷ [])

resume_params : ExecOptions → Fields
unfolding nil_if_empty
resume_params opts = apply_codex_reasoning_effort opts.thinking_level (
    apply_codex_yolo_policy (
      field "threadId" (string opts.resume_session_id) (
        field "cwd" (string opts.cwd) (
          field "model" (nil_if_empty opts.model)
            (field "developerInstructions" (nil_if_empty opts.system_prompt) end)))))

start_params : ExecOptions → Fields
unfolding nil_if_empty
start_params opts = apply_codex_reasoning_effort opts.thinking_level (
    apply_codex_yolo_policy (
      field "model" (nil_if_empty opts.model) (
        field "modelProvider" null (
          field "profile" null (
            field "cwd" (string opts.cwd) (
              field "config" null (
                field "baseInstructions" null (
                  field "developerInstructions" (nil_if_empty opts.system_prompt) (
                    field "compactPrompt" null (
                      field "includeApplyPatchTool" null (
                        field "experimentalRawEvents" (bool false)
                          (field "persistExtendedHistory" (bool true) end))))))))))))

turn_params : Bytes → Bytes → ExecOptions → Fields
turn_params thread_id prompt opts = apply_codex_reasoning_effort opts.thinking_level (
    field "threadId" (string thread_id) (
      field "input"
        (array (
          cons (object (field "type" (string (codes "text")) (field "text" (string prompt) end)))
            nil))
        end))

-- A call: its method and its parameters.
abbrev pub Call : Type 0
Call = Bytes × Fields

pub data Thread : Type 0 where
  -- the thread's id, and whether it is the prior one
  in_thread : Bytes → Bool → Thread
  no_thread : Bytes → Thread

module _ (ask : Bytes → Fields → Answer) where
  -- `trySetThreadName`: its failure is only logged.
  naming : Bytes → Bytes → List Call
  naming thread_id name =
      if is_blank (trim_space name)
      then []
      else (
        codes "thread/name/set",
        field "threadId" (string thread_id) (field "name" (string (trim_space name)) end),
      )
        ∷ []

  begun : ExecOptions → Answer → List Call × Thread
  unfolding naming
  begun opts (refused e) = ([], no_thread (codes "codex thread/start failed: " ++ error_text e))
  begun opts (replied r) =
      if is_blank (extract_thread_id r)
      then ([], no_thread (codes "codex thread/start returned no thread ID"))
      else (naming (extract_thread_id r) opts.thread_name, in_thread (extract_thread_id r) false)

  fresh : ExecOptions → List Call × Thread
  unfolding begun start_params
  fresh opts =
      let next = begun opts (ask (codes "thread/start") (start_params opts)) in
      ((codes "thread/start", start_params opts) ∷ next.0, next.1)

  resumed : ExecOptions → Answer → List Call × Thread
  unfolding fresh
  resumed opts (replied r) =
      let next = fresh opts in
      if is_blank (extract_thread_id r) then next else ([], in_thread (extract_thread_id r) true)
  resumed opts (refused e) =
      let next = fresh opts in
      if is_codex_transport_error e
      then ([], no_thread (codes "codex thread/resume failed: " ++ error_text e))
      else next

  -- `startOrResumeThread`: the calls it makes, in their order, and what comes of them.
  unfoldable pub start_or_resume_thread : ExecOptions → List Call × Thread
  unfolding resumed fresh resume_params
  start_or_resume_thread opts =
      let next = resumed opts (ask (codes "thread/resume") (resume_params opts)) in
      let new = fresh opts in
      if is_blank opts.resume_session_id
      then new
      else ((codes "thread/resume", resume_params opts) ∷ next.0, next.1)

  -- Execute up to the wait: the calls, and the thread of the turn or the error of the run, before the
  -- tail of stderr.
  in_turn : Bytes → ExecOptions → Thread → Answer → Thread
  in_turn prompt opts thread (replied r) = thread
  in_turn prompt opts thread (refused e) =
      no_thread (codes "codex turn/start failed: " ++ error_text e)

  begin_turn : Bytes → ExecOptions → Thread → List Call × Thread
  unfolding in_turn turn_params
  begin_turn prompt opts (no_thread why) = ([], no_thread why)
  begin_turn prompt opts (in_thread id prior) = (
    (codes "turn/start", turn_params id prompt opts) ∷ [],
    in_turn prompt opts (in_thread id prior)
        (ask (codes "turn/start") (turn_params id prompt opts)),
  )

  client_info : Fields
  client_info =
      field "clientInfo"
        (object (
          field "name" (string (codes "multica-agent-sdk")) (
            field "title" (string (codes "Multica Agent SDK"))
              (field "version" (string (codes "0.2.0")) end))))
        (field "capabilities" (object (field "experimentalApi" (bool true) end)) end)

  initialized : Bytes → ExecOptions → Answer → List Call × Thread
  unfolding begin_turn
  initialized prompt opts (refused e) =
      ([], no_thread (codes "codex initialize failed: " ++ error_text e))
  initialized prompt opts (replied r) =
      let thread = start_or_resume_thread opts in
      let turn = begin_turn prompt opts thread.1 in
      ((codes "initialized", end) ∷ thread.0 ++ turn.0, turn.1)

  unfoldable pub start_run : Bytes → ExecOptions → List Call × Thread
  unfolding initialized client_info
  start_run prompt opts =
      let next = initialized prompt opts (ask (codes "initialize") client_info) in
      ((codes "initialize", client_info) ∷ next.0, next.1)
