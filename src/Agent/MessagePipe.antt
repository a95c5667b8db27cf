-- ===== src/Agent/MessagePipe.antt =====
-- The lossless fan-in of the backends' messages: daemon/pkg/agent/message_pipe.go. A producer's call
-- and each turn of the relay hold the mutex, so they are the steps of the pipe; the receive channel
-- has no buffer, so a message is in the relay's hand until the consumer takes it.
pub mod Lossless
use meowth.Prelude.{Bool, true, false, List, [], ◌∷◌, ◌++◌, Option, none, some, if◌then◌else◌}

pub record Pipe (A : Type 0) : Type 0 where
  pub queue : List A
  pub closed : Bool
  -- the message of `p.out <- msg`
  pub in_hand : Option A
  -- the relay has returned, and the channel is closed
  pub returned : Bool

-- Who moves: a producer, the relay, or the consumer at the channel.
pub data Move (A : Type 0) : Type 0 where
  send : A → Move A
  close : Move A
  relay : Move A
  receive : Move A

module _ {A : Type 0} where
  abbrev pub new_message_pipe : Pipe A
  new_message_pipe = record { queue = []; closed = false; in_hand = none; returned = false }

  -- `Send`: a closed pipe drops the message.
  send_message : A → Pipe A → Pipe A
  send_message m p = if p.closed then p else record p { queue = p.queue ++ m ∷ [] }

  -- `Close`
  close_pipe : Pipe A → Pipe A
  close_pipe p = record p { closed = true }

  -- The relay between two looks at the queue: it takes the head, returns at the end, or waits.
  take_head : List A → Pipe A → Pipe A
  take_head [] p = if p.closed then record p { returned = true } else p
  take_head (m ∷ rest) p = record p { queue = rest; in_hand = some m }

  relay_turn : Option A → Pipe A → Pipe A
  unfolding take_head
  relay_turn (some m) p = p
  relay_turn none p = if p.returned then p else take_head p.queue p

  -- The consumer gets what is in the relay's hand, if anything.
  handed : Option A → List A
  handed none = []
  handed (some m) = m ∷ []

  -- One move, and what the consumer gets by it.
  unfoldable pub move : Move A → Pipe A → Pipe A × List A
  unfolding send_message close_pipe relay_turn handed
  move (send m) p = (send_message m p, [])
  move close p = (close_pipe p, [])
  move relay p = (relay_turn p.in_hand p, [])
  move receive p = (record p { in_hand = none }, handed p.in_hand)

  -- A sequence of moves, and all that the consumer gets.
  unfoldable pub run : List (Move A) → Pipe A → Pipe A × List A
  run [] p = (p, [])
  run (m ∷ ms) p = let (p', got) = move m p in let (p'', later) = run ms p' in (p'', got ++ later)
