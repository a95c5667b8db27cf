-- ===== src/Agent/Codex/Notifications.antt =====
-- The lines of the codex app-server and what the client makes of them: handleLine, handleNotification,
-- handleEvent, handleRawNotification and handleItemNotification of daemon/pkg/agent/codex.go. The
-- conversion of a JSON number, and the decoding of an id, are arguments.
pub mod Turns
use meowth.Prelude.{
  ℕ, Bool, true, false, not, ◌&&◌, ◌||◌, List, [], ◌∷◌, ◌++◌, Option, none, some, String,
  if◌then◌else◌, Bytes, codes, bytes_eq, is_blank, has_prefix, ℤ, pos, negsuc, ◌-ℤ◌, is_positive,
  lt_ℤ, suc,
}
use meowth.Pump.{TokenUsage}
use meowth.Agent.Json.{Json, number, string, bool, object, Fields, end, field, get}
use meowth.Agent.Messages.{text_message, tool_use, tool_result, status_message, add_tokens}
use meowth.Agent.Codex.{
  CodexClient, Protocol, undecided, legacy, raw, Effect, message, activity, turn_done,
  handle_response, handle_server_request, set_turn_error,
}
use meowth.Agent.Codex.Reading.{
  codex_uncached_input_tokens, contains_id, describe_item, extract_nested_string,
  extract_usage_from_map, fields_of, flag_value, is_foreign, is_there, is_zero, object_of, or_text,
  or_zero, text_of, with_usage,
}

running : CodexClient → Effect
running c = message (status_message (codes "running") c.thread_id)

command_input : Fields → Option Bytes
command_input fs = some (text_of (get "command" fs))

text_effect : Bytes → List Effect
text_effect [] = []
text_effect (c ∷ t) = message (text_message (c ∷ t)) ∷ []

exec_command : Bytes
exec_command = codes "exec_command"

patch_apply : Bytes
patch_apply = codes "patch_apply"

aborts : Bytes → Bool
aborts status =
    bytes_eq status (codes "cancelled")
    || bytes_eq status (codes "canceled")
    || bytes_eq status (codes "aborted")
    || bytes_eq status (codes "interrupted")

module _ (int64_of : Bytes → Option ℤ) where
  -- `handleEvent`, of the legacy protocol.
  unfoldable pub handle_event : Fields → CodexClient → List Effect × CodexClient
  unfolding running command_input text_effect exec_command patch_apply
  handle_event msg c =
      let kind = text_of (get "type" msg) in
      let call_id = text_of (get "call_id" msg) in
      if bytes_eq kind (codes "task_started")
      then (running c ∷ [], record c { turn_started = true })
      else if bytes_eq kind (codes "agent_message")
      then (text_effect (text_of (get "message" msg)), c)
      else if bytes_eq kind (codes "exec_command_begin")
      then (message (tool_use exec_command call_id (command_input msg)) ∷ [], c)
      else if bytes_eq kind (codes "exec_command_end")
      then (message (tool_result exec_command call_id (text_of (get "output" msg))) ∷ [], c)
      else if bytes_eq kind (codes "patch_apply_begin")
      then (message (tool_use patch_apply call_id none) ∷ [], c)
      else if bytes_eq kind (codes "patch_apply_end")
      then (message (tool_result patch_apply call_id []) ∷ [], c)
      else if bytes_eq kind (codes "task_complete")
      then (turn_done false ∷ [], extract_usage_from_map int64_of msg c)
      else if bytes_eq kind (codes "turn_aborted")
      then (turn_done true ∷ [], c)
      else ([], c)

  -- The end of a turn, behind what it says of an error: once for each turn's id.
  settle : Bytes → Bool → Option Fields → CodexClient → List Effect × CodexClient
  unfolding contains_id
  settle turn_id aborted turn c =
      let seen = not (is_blank turn_id) && contains_id turn_id c.completed_turn_ids in
      let known =
        if is_blank turn_id
        then c
        else record c { completed_turn_ids = turn_id ∷ c.completed_turn_ids } in
      let counted : CodexClient = elim turn [
        | none ↦ known
        | some fs ↦ extract_usage_from_map int64_of fs known
      ] in
      if seen then ([], c) else (turn_done aborted ∷ [], counted)

  turn_completed : Fields → CodexClient → List Effect × CodexClient
  unfolding aborts settle or_text
  turn_completed params c =
      let status = extract_nested_string params ("turn" ∷ "status" ∷ []) in
      let why =
        or_text (extract_nested_string params ("turn" ∷ "error" ∷ "message" ∷ []))
          (codes "codex turn failed") in
      settle (extract_nested_string params ("turn" ∷ "id" ∷ [])) (aborts status)
        (object_of (get "turn" params))
        (if bytes_eq status (codes "failed") then set_turn_error why c else c)

  -- The branches of `handleRawNotification`.
  turn_begun : Fields → CodexClient → List Effect × CodexClient
  unfolding running
  turn_begun params c =
      let id = extract_nested_string params ("turn" ∷ "id" ∷ []) in
      (
        running c ∷ [],
        record c { turn_started = true; turn_id = if is_blank id then c.turn_id else id },
      )

  on_error : Fields → CodexClient → List Effect × CodexClient
  unfolding or_text flag_value
  on_error params c =
      let msg =
        or_text (extract_nested_string params ("error" ∷ "message" ∷ []))
          (extract_nested_string params ("message" ∷ [])) in
      if is_blank msg
      then ([], c)
      else if flag_value (get "willRetry" params)
      then (activity (codes "error:retry") ∷ [], c)
      else (activity (codes "error:terminal") ∷ turn_done false ∷ [], set_turn_error msg c)

  item_effects : Bytes → Bytes → Bytes → Fields → CodexClient → List Effect
  unfolding command_input text_effect exec_command patch_apply
  item_effects method kind id item c =
      let starts = bytes_eq method (codes "item/started") in
      let completes = bytes_eq method (codes "item/completed") in
      if starts && bytes_eq kind (codes "commandExecution")
      then message (tool_use exec_command id (command_input item)) ∷ []
      else if completes && bytes_eq kind (codes "commandExecution")
      then message (tool_result exec_command id (text_of (get "aggregatedOutput" item))) ∷ []
      else if starts && bytes_eq kind (codes "fileChange")
      then message (tool_use patch_apply id none) ∷ []
      else if completes && bytes_eq kind (codes "fileChange")
      then message (tool_result patch_apply id []) ∷ []
      else if completes && bytes_eq kind (codes "agentMessage")
      then text_effect (text_of (get "text" item))
        ++ (if bytes_eq (text_of (get "phase" item)) (codes "final_answer") && c.turn_started
            then turn_done false ∷ []
            else [])
      else []

  -- `handleItemNotification`; its method begins with "item/".
  handle_item_notification : Bytes → Fields → CodexClient → List Effect
  unfolding item_effects
  handle_item_notification method params c =
      let item = fields_of (get "item" params) in
      let kind = text_of (get "type" item) in
      let id = text_of (get "id" item) in
      activity (describe_item method kind id) ∷ (elim (object_of (get "item" params)) [
        | none ↦ []
        | some fs ↦ item_effects method kind id fs c
      ])

  -- `handleRawNotification`
  unfoldable pub handle_raw_notification : Bytes → Fields → CodexClient → List Effect × CodexClient
  unfolding is_foreign turn_begun turn_completed on_error handle_item_notification
  handle_raw_notification method params c =
      if is_foreign c.thread_id (get "threadId" params)
      then ([], c)
      else if bytes_eq method (codes "turn/started")
      then turn_begun params c
      else if bytes_eq method (codes "turn/completed")
      then turn_completed params c
      else if bytes_eq method (codes "error")
      then on_error params c
      else if bytes_eq method (codes "thread/status/changed")
      then (
        if bytes_eq (extract_nested_string params ("status" ∷ "type" ∷ [])) (codes "idle")
              && c.turn_started
            then turn_done false ∷ []
            else [],
        c,
      )
      else if has_prefix method (codes "item/")
      then (handle_item_notification method params c, c)
      else ([], c)

  decides_raw : Bytes → Bool
  decides_raw method =
      bytes_eq method (codes "turn/started")
      || bytes_eq method (codes "turn/completed")
      || bytes_eq method (codes "thread/started")
      || has_prefix method (codes "item/")

  is_legacy_method : Bytes → Bool
  is_legacy_method method =
      bytes_eq method (codes "codex/event") || has_prefix method (codes "codex/event/")

  legacy_event : Option Fields → CodexClient → List Effect × CodexClient
  legacy_event none c = ([], c)
  legacy_event (some msg) c = handle_event msg c

  in_protocol : Protocol → Bytes → Fields → CodexClient → List Effect × CodexClient
  unfolding decides_raw
  in_protocol legacy method params c = ([], c)
  in_protocol raw method params c = handle_raw_notification method params c
  in_protocol undecided method params c =
      if decides_raw method
      then handle_raw_notification method params (record c { protocol = raw })
      else ([], c)

  -- `handleNotification`
  unfoldable pub handle_notification : Bytes → Fields → CodexClient → List Effect × CodexClient
  unfolding is_legacy_method legacy_event in_protocol
  handle_notification method params c =
      if is_legacy_method method
      then legacy_event (object_of (get "msg" params)) (record c { protocol = legacy })
      else in_protocol c.protocol method params c

  module _ (id_of : Json → Option ℕ) where
    with_id : Json → Fields → CodexClient → List Effect × CodexClient
    unfolding or_zero is_there
    with_id id fs c =
        if is_there (get "result" fs) || is_there (get "error" fs)
        then ([], handle_response (id_of id) fs c)
        else if is_there (get "method" fs)
        then handle_server_request (or_zero (id_of id)) (text_of (get "method" fs))
            (get "params" fs) c
        else ([], c)

    by_id : Option Json → Fields → CodexClient → List Effect × CodexClient
    unfolding with_id is_there
    by_id (some id) fs c = with_id id fs c
    by_id none fs c =
        if is_there (get "method" fs)
        then handle_notification (text_of (get "method" fs)) (fields_of (get "params" fs)) c
        else ([], c)

    -- `handleLine`, of a line that is an object or not.
    unfoldable pub handle_line : Option Fields → CodexClient → List Effect × CodexClient
    unfolding by_id
    handle_line none c = ([], c)
    handle_line (some fs) c = by_id (get "id" fs) fs c

    -- `handleLine` on each line.
    unfoldable pub handle_lines : List (Option Fields) → CodexClient → List Effect × CodexClient
    handle_lines [] c = ([], c)
    handle_lines (line ∷ lines) c =
        let one = handle_line line c in
        let more = handle_lines lines one.1 in (one.0 ++ more.0, more.1)
