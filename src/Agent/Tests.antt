-- ===== src/Agent/Tests.antt =====
-- The pipe and the stderr tail (Agent/MessagePipe.antt, Agent/StderrTail.antt) at small inputs.
use meowth.Prelude.{ℕ, ◌≡◌, refl, Bool, true, false, List, [], ◌∷◌, ◌++◌, Bytes, codes}
use meowth.Agent.MessagePipe.{Move, send, close, relay, receive, new_message_pipe, move, run}
use meowth.Agent.MessagePipe.Lossless.{held, accepted, run-held}

-- The message that is sent behind the close is dropped; the two before it arrive in order.
abbrev traffic : List (Move ℕ)
traffic = send 1 ∷ relay ∷ send 2 ∷ receive ∷ close ∷ send 3 ∷ relay ∷ receive ∷ relay ∷ []

both_arrive : (run traffic new_message_pipe).1 ≡ 1 ∷ 2 ∷ []
unfolding run move
both_arrive = refl

run-held_example :
    (run traffic new_message_pipe).1 ++ held (run traffic new_message_pipe).0
    ≡ held {A = ℕ} new_message_pipe ++ accepted traffic false
run-held_example = run-held traffic new_message_pipe

abbrev chunks : List (Bool × Bytes)
chunks = (false, codes "panic: ") ∷ (true, codes "lost") ∷ (false, codes "oom") ∷ []
