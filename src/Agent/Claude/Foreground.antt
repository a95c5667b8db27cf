-- ===== src/Agent/Claude/Foreground.antt =====
-- The control responses of the claude backend (Agent/Claude.antt) keep tools in the foreground.
use meowth.Prelude.{
  ◌≡◌, false, ◌&&◌, List, [], ◌∷◌, Option, none, some, String, str_eq, eq_iff, if◌then◌else◌, Bytes,
  All, All-append, arith, Bool-cases, inl, inr,
}
use meowth.Agent.Json.{Json, bool, Fields, end, field, get, replace}
use meowth.Agent.Claude.{
  ClaudeMessage, assistant, user, system, result, log, control_request, other, ClaudeState, initial,
  is_true, force_foreground, or_end, handle_control_request, on_result, on_claude_message,
  run_claude,
}

get-replace :
    (k j : String) (v : Json) (fs : Fields)
    → get j (replace k v fs)
      ≡ (if str_eq k j then (elim (get j fs) [ none ↦ none | some w ↦ some v ]) else get j fs)
unfolding get replace
get-replace k j v end = ground arith
get-replace k j v (field i w fs) =
    ground (arith, get-replace k j v fs, eq_iff i k, eq_iff i j, eq_iff k j)

abbrev pub Foreground : Bytes × Fields → Type 0
Foreground r = is_true (get "run_in_background" r.1) ≡ false

force-Foreground : (id : Bytes) (fs : Fields) → Foreground (id, force_foreground fs)
unfolding force_foreground is_true
force-Foreground id fs =
    ground (arith, get-replace "run_in_background" "run_in_background" (bool false) fs)

request-Foreground :
    (id : Bytes) (input : Option (Option Fields)) (st : ClaudeState)
    → All Foreground st.responses
    → All Foreground (handle_control_request id input st).responses
unfolding handle_control_request
request-Foreground id none st h = h
request-Foreground id (some input) st h = elim (Bool-cases st.stdin_closed) [
  | inl c ↦ simp c h
  | inr o ↦ simp o (All-append Foreground st.responses _ h (force-Foreground id (or_end input), tt))
]

message-Foreground :
    (model : String) (m : ClaudeMessage) (st : ClaudeState)
    → All Foreground st.responses
    → All Foreground (on_claude_message model m st).1.responses
unfolding on_claude_message on_result
message-Foreground model (assistant none) st h = h
message-Foreground model (assistant (some c)) st h = h
message-Foreground model (user none) st h = h
message-Foreground model (user (some bs)) st h = h
message-Foreground model (system id) st h = h
message-Foreground model (result r) st h = h
message-Foreground model (log none) st h = h
message-Foreground model (log (some (level, t))) st h = h
message-Foreground model (control_request id input) st h = request-Foreground id input st h
message-Foreground model other st h = h

run-Foreground :
    (model : String) (ms : List ClaudeMessage) (st : ClaudeState)
    → All Foreground st.responses
    → All Foreground (run_claude model ms st).1.responses
unfolding run_claude
run-Foreground model [] st h = h
run-Foreground model (m ∷ ms) st h =
    run-Foreground model ms (on_claude_message model m st).1 (message-Foreground model m st h)

force_foreground-get :
    (k : String) (fs : Fields)
    → get k (force_foreground fs) ≡ (
        if str_eq "run_in_background" k && is_true (get "run_in_background" fs)
        then some (bool false)
        else get k fs)
unfolding force_foreground is_true
force_foreground-get k fs =
    ground (arith, get-replace "run_in_background" k (bool false) fs, eq_iff "run_in_background" k)

-- Every control response that a run writes asks for the foreground: its input has no
-- `run_in_background` that is true. It is the requested input but for that field, which is made false
-- where it was true.
pub answers-Foreground :
    (model : String) (ms : List ClaudeMessage)
    → All Foreground (run_claude model ms initial).1.responses
      × ((k : String) (fs : Fields)
          → get k (force_foreground fs) ≡ (
              if str_eq "run_in_background" k && is_true (get "run_in_background" fs)
              then some (bool false)
              else get k fs))
answers-Foreground model ms = (run-Foreground model ms initial tt, force_foreground-get)
