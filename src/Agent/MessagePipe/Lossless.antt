-- ===== src/Agent/MessagePipe/Lossless.antt =====
-- The pipe of Agent/MessagePipe.antt neither loses, repeats nor reorders a message, and empties once
-- it is closed.
use meowth.Prelude.{
  ◌≡◌, refl, sym, ap, ◌∙◌, Bool, true, List, [], ◌∷◌, ◌++◌, append_assoc, append-nil, Option, none,
  some, arith, if◌then◌else◌, Bool-cases, inl, inr,
}
use meowth.Agent.MessagePipe.{
  Pipe, Move, send, close, relay, receive, send_message, close_pipe, take_head, relay_turn, handed,
  move, run,
}

module _ {A : Type 0} where
  -- What the pipe still holds, oldest first.
  pub held : Pipe A → List A
  unfolding handed
  held p = handed p.in_hand ++ p.queue

  -- The messages of the sends that find the pipe open, in their order.
  unfoldable pub accepted : List (Move A) → Bool → List A
  accepted [] closed = []
  accepted (send m ∷ ms) closed = if closed then accepted ms closed else m ∷ accepted ms closed
  accepted (close ∷ ms) closed = accepted ms true
  accepted (relay ∷ ms) closed = accepted ms closed
  accepted (receive ∷ ms) closed = accepted ms closed

  gained : Move A → Bool → List A
  gained (send m) closed = if closed then [] else m ∷ []
  gained close closed = []
  gained relay closed = []
  gained receive closed = []

  head-held :
      (q : List A) (p : Pipe A) → p.in_hand ≡ none → p.queue ≡ q → held (take_head q p) ≡ held p
  unfolding take_head held handed
  head-held [] p h e = elim (Bool-cases p.closed) [ inl c ↦ rw c refl | inr c ↦ rw c refl ]
  head-held (m ∷ rest) p h e = rw (h, e) refl

  turn-held : (o : Option A) (p : Pipe A) → p.in_hand ≡ o → held (relay_turn o p) ≡ held p
  unfolding relay_turn
  turn-held (some m) p h = refl
  turn-held none p h = elim (Bool-cases p.returned) [
    | inl r ↦ simp r refl
    | inr r ↦ simp r (head-held p.queue p h refl)
  ]

  send-held : (m : A) (p : Pipe A) → held (send_message m p) ≡ held p ++ gained (send m) p.closed
  unfolding send_message held gained
  send-held m p = elim (Bool-cases p.closed) [
    | inl c ↦ rw c (sym (append-nil (handed p.in_hand ++ p.queue)))
    | inr c ↦ rw c (sym (append_assoc (handed p.in_hand) p.queue (m ∷ [])))
  ]

  -- One move: what it hands over and leaves is what there was, and what it brings in.
  move-held :
      (m : Move A) (p : Pipe A) → (move m p).1 ++ held (move m p).0 ≡ held p ++ gained m p.closed
  unfolding move
  move-held (send m) p = send-held m p
  move-held close p =
      unfold held in
      unfold close_pipe in unfold gained in sym (append-nil (handed p.in_hand ++ p.queue))
  move-held relay p = unfold gained in turn-held p.in_hand p refl ∙ sym (append-nil (held p))
  move-held receive p =
      unfold held in
      unfold handed in unfold gained in sym (append-nil (handed p.in_hand ++ p.queue))

  head_closed : (q : List A) (p : Pipe A) → (take_head q p).closed ≡ p.closed
  unfolding take_head
  head_closed [] p = ground arith
  head_closed (m ∷ rest) p = refl

  turn_closed : (o : Option A) (p : Pipe A) → (relay_turn o p).closed ≡ p.closed
  unfolding relay_turn
  turn_closed (some m) p = refl
  turn_closed none p = ground (arith, head_closed p.queue p)

  move-accepted :
      (m : Move A) (ms : List (Move A)) (p : Pipe A)
      → accepted (m ∷ ms) p.closed ≡ gained m p.closed ++ accepted ms (move m p).0.closed
  unfolding move accepted gained
  move-accepted (send m) ms p = elim (Bool-cases p.closed) [
    | inl c ↦ unfold send_message in rw c refl
    | inr c ↦ unfold send_message in rw c refl
  ]
  move-accepted close ms p = unfold close_pipe in refl
  move-accepted relay ms p = ap (λ b. accepted ms b) (sym (turn_closed p.in_hand p))
  move-accepted receive ms p = refl

  -- At any time, in any interleaving, what the consumer has got, followed by what the pipe still
  -- holds, is what the pipe held at the start, followed by every message that was sent before the
  -- pipe was closed, in order: none is lost, repeated or overtaken.
  pub run-held :
      (ms : List (Move A)) (p : Pipe A)
      → (run ms p).1 ++ held (run ms p).0 ≡ held p ++ accepted ms p.closed
  unfolding run accepted
  run-held [] p = sym (append-nil (held p))
  run-held (m ∷ ms) p =
      let (p', got) = move m p in
      let (p'', later) = run ms p' in
      append_assoc got later (held p'')
      ∙ ap (λ l. got ++ l) (run-held ms p')
      ∙ sym (append_assoc got (held p') (accepted ms p'.closed))
      ∙ ap (λ l. l ++ accepted ms p'.closed) (move-held m p)
      ∙ append_assoc (held p) (gained m p.closed) (accepted ms p'.closed)
      ∙ ap (λ l. held p ++ l) (sym (move-accepted m ms p))
