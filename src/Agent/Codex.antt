-- ===== src/Agent/Codex.antt =====
-- The codex client: its JSON-RPC transport, in daemon/pkg/agent/codex.go. The calls of the client and
-- the lines of the child come one at a time, under the mutex; a call's wait for its answer is over
-- when the answer is delivered.
pub mod Reading
pub mod Notifications
pub mod Correlation
pub mod Turn
pub mod Diagnostics
pub mod Threads
pub mod Toml
pub mod SessionLog
pub mod Tests
use meowth.Prelude.{
  ℕ, suc, ◌+◌, Bool, true, false, not, ◌&&◌, ◌||◌, List, [], ◌∷◌, ◌++◌, Option, none, some, String,
  str_eq, ◌==◌, if◌then◌else◌, Bytes, codes, bytes_eq, is_blank, has_prefix,
}
use meowth.Pump.{AgentMessage, TokenUsage}
use meowth.Agent.Json.{Json, null, string, object, Fields, end, field, get}
use meowth.Agent.Messages.{no_tokens}

-- What a waiting call receives.
pub data Reply : Type 0 where
  succeeded : Json → Reply
  -- the method and the error object
  failed_call : Bytes → Json → Reply
  exited : Reply

pub data Protocol : Type 0 where
  undecided legacy raw : Protocol

-- `codexClient`; `deliveries` lists what has been sent on the channels of the calls.
pub record CodexClient : Type 0 where
  pub next_id : ℕ
  pub pending : List (ℕ × Bytes)
  pub process_exited : Bool
  pub deliveries : List (ℕ × Reply)
  pub thread_id : Bytes
  pub turn_id : Bytes
  pub protocol : Protocol
  pub turn_started : Bool
  pub completed_turn_ids : List Bytes
  pub usage : TokenUsage
  pub turn_error : Bytes

abbrev pub new_client : CodexClient
new_client = record {
  next_id = 0;
  pending = [];
  process_exited = false;
  deliveries = [];
  thread_id = [];
  turn_id = [];
  protocol = undecided;
  turn_started = false;
  completed_turn_ids = [];
  usage = no_tokens;
  turn_error = [];
}

-- What the client does outside its own state.
pub data Effect : Type 0 where
  -- onMessage, onSemanticActivity and onTurnDone
  message : AgentMessage → Effect
  activity : Bytes → Effect
  turn_done : Bool → Effect
  -- a line with a call's id, method and parameters; a result, and an error, for the server's call
  call : ℕ → Bytes → Json → Effect
  response : ℕ → Json → Effect
  response_error : ℕ → Bytes → Effect

unfoldable pub find_pending : ℕ → List (ℕ × Bytes) → Option Bytes
find_pending id [] = none
find_pending id ((j, method) ∷ ps) = if j == id then some method else find_pending id ps

unfoldable pub forget : ℕ → List (ℕ × Bytes) → List (ℕ × Bytes)
forget id [] = []
forget id ((j, method) ∷ ps) =
    let rest = forget id ps in if j == id then rest else (j, method) ∷ rest

-- `request` up to its wait; a call to a process that has exited fails at once. A write that fails
-- takes the call back.
unfoldable pub request : Bool → Bytes → Json → CodexClient → List Effect × CodexClient
request write_fails method params c =
    if c.process_exited
    then ([], c)
    else if write_fails
    then ([], record c { next_id = suc c.next_id })
    else (
      call (suc c.next_id) method params ∷ [],
      record c { next_id = suc c.next_id; pending = (suc c.next_id, method) ∷ c.pending },
    )

-- A wait that the context ends.
unfoldable pub give_up : ℕ → CodexClient → CodexClient
give_up id c = record c { pending = forget id c.pending }

reply_of : Bytes → Fields → Reply
reply_of method fs = elim (get "error" fs) [
  | some e ↦ failed_call method e
  | none ↦ elim (get "result" fs) [ some r ↦ succeeded r | none ↦ succeeded null ]
]

answered : ℕ → Fields → Option Bytes → CodexClient → CodexClient
unfolding reply_of
answered id fs none c = c
answered id fs (some method) c = record c {
  pending = forget id c.pending;
  deliveries = c.deliveries ++ (id, reply_of method fs) ∷ [];
}

-- `handleResponse`, of an id that decodes or not.
unfoldable pub handle_response : Option ℕ → Fields → CodexClient → CodexClient
unfolding answered
handle_response none fs c = c
handle_response (some id) fs c = answered id fs (find_pending id c.pending) c

unfoldable pub all_exited : List (ℕ × Bytes) → List (ℕ × Reply)
all_exited [] = []
all_exited ((id, method) ∷ ps) = (id, exited) ∷ all_exited ps

-- `markProcessExited`
unfoldable pub mark_process_exited : CodexClient → CodexClient
mark_process_exited c = record c {
  process_exited = true;
  pending = [];
  deliveries = c.deliveries ++ all_exited c.pending;
}

-- `setTurnError`: the first error stays.
unfoldable pub set_turn_error : Bytes → CodexClient → CodexClient
set_turn_error msg c =
    if is_blank msg then c else if is_blank c.turn_error then record c { turn_error = msg } else c

as_object : Option Json → Option Fields
as_object (some (object fs)) = some fs
as_object o = none

with_part : String → Json → Fields → Fields
with_part key null rest = rest
with_part key v rest = field key v rest

granted_part : String → Fields → Fields → Fields
unfolding with_part
granted_part key permissions rest = elim (get key permissions) [
  | none ↦ rest
  | some v ↦ with_part key v rest
]

granted : Option Fields → Fields
unfolding granted_part
granted none = end
granted (some permissions) =
    granted_part "network" permissions (granted_part "fileSystem" permissions end)

or_end : Option Fields → Fields
or_end none = end
or_end (some fs) = fs

-- `codexPermissionsApprovalResponse`
unfoldable pub codex_permissions_approval_response : Option Json → Json
unfolding granted as_object or_end
codex_permissions_approval_response params = object (
    field "permissions"
      (object (granted (as_object (get "permissions" (or_end (as_object params))))))
      (field "scope" (string (codes "turn")) end))

abbrev decision_accept : Json
decision_accept = object (field "decision" (string (codes "accept")) end)

abbrev elicitation_accept : Json
elicitation_accept =
    object
      (field "action" (string (codes "accept")) (field "content" null (field "_meta" null end)))

unfoldable pub is_approval : Bytes → Bool
is_approval method =
    bytes_eq method (codes "item/commandExecution/requestApproval")
    || bytes_eq method (codes "execCommandApproval")
    || bytes_eq method (codes "item/fileChange/requestApproval")
    || bytes_eq method (codes "applyPatchApproval")

-- `handleServerRequest`
unfoldable pub handle_server_request :
    ℕ → Bytes → Option Json → CodexClient → List Effect × CodexClient
handle_server_request id method params c =
    let msg = codes "unsupported codex app-server request: " ++ method in
    if is_approval method
    then (response id decision_accept ∷ [], c)
    else if bytes_eq method (codes "item/permissions/requestApproval")
    then (response id (codex_permissions_approval_response params) ∷ [], c)
    else if bytes_eq method (codes "mcpServer/elicitation/request")
    then (response id elicitation_accept ∷ [], c)
    else (response_error id msg ∷ [], set_turn_error msg c)
