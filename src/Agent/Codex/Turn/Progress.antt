-- ===== src/Agent/Codex/Turn/Progress.antt =====
-- When the codex backend gives up on a first turn without progress (Agent/Codex/Turn.antt).
use meowth.Prelude.{
  ◌≡◌, refl, sym, ap, ◌∙◌, Bool, true, false, not, ◌&&◌, List, [], ◌∷◌, ◌++◌, Option, none, some,
  if◌then◌else◌, Bytes, bytes_eq, arith,
}
use meowth.Agent.Codex.Turn.{
  Wait, first_wait, TurnEnd, WaitEvent, turn_over, active, no_progress, idle, context_done,
  process_done, times_out, first_turn_no_progress, is_progress, status_running, observe, wait_step,
  unless_ended, wait_turn,
}

-- The activities among the events, in their order.
unfoldable pub heard : List WaitEvent → List Bytes
heard [] = []
heard (active a ∷ es) = a ∷ heard es
heard (e ∷ es) = heard es

all_quiet : List Bytes → Bool
all_quiet [] = true
all_quiet (a ∷ acts) = not (is_progress a) && all_quiet acts

-- The turn has been reported as running, and nothing since then is progress.
unfoldable pub is_stalled : List Bytes → Bool
unfolding all_quiet
is_stalled [] = false
is_stalled (a ∷ acts) =
    let rest = is_stalled acts in if bytes_eq a status_running then all_quiet acts else rest

abbrev expected : Wait → List Bytes → Bool
expected w acts =
    if w.first_turn_started
    then not w.first_turn_progress_observed && all_quiet acts
    else is_stalled acts

Consistent : Wait → Type 0
Consistent w =
    (w.timer_set ≡ (w.first_turn_started && not w.first_turn_progress_observed))
    × ((w.first_turn_progress_observed && not w.first_turn_started) ≡ false)

module _ (turn_error timeout_text : Bytes) where
  step-Consistent :
      (e : WaitEvent) (w : Wait)
      → Consistent w
      → Consistent (wait_step turn_error timeout_text e w).0
  unfolding Consistent wait_step observe
  step-Consistent (turn_over b) w h = h
  step-Consistent (active a) w h = (ground (arith, h.0, h.1), ground (arith, h.0, h.1))
  step-Consistent no_progress w h = h
  step-Consistent idle w h = h
  step-Consistent (context_done c) w h = h
  step-Consistent (process_done t c y) w h = h

  step-expected :
      (e : WaitEvent) (es : List WaitEvent) (w : Wait)
      → Consistent w
      → (wait_step turn_error timeout_text e w).1 ≡ none
      → expected (wait_step turn_error timeout_text e w).0 (heard es) ≡ expected w (heard (e ∷ es))
  unfolding Consistent wait_step observe heard is_stalled all_quiet is_progress bytes_eq
  step-expected (turn_over b) es w k h = cc
  step-expected (active a) es w k h = ground (arith, k.1)
  step-expected no_progress es w k h = refl
  step-expected idle es w k h = cc
  step-expected (context_done c) es w k h = cc
  step-expected (process_done t c y) es w k h = cc

  goes_on :
      (step rest : Wait × Option TurnEnd)
      → (unless_ended step rest).1 ≡ none
      → (step.1 ≡ none) × ((r : Wait × Option TurnEnd) → unless_ended step r ≡ r)
  unfolding unless_ended
  goes_on (w, none) rest h = (refl, λ r. refl)
  goes_on (w, some fin) rest h = cc

  last_step : (step : Wait × Option TurnEnd) → (unless_ended step (step.0, none)).1 ≡ step.1
  unfolding unless_ended
  last_step (w, none) = refl
  last_step (w, some fin) = refl

  -- What the timer says after events that do not end the wait.
  timer :
      (es : List WaitEvent) (w : Wait)
      → Consistent w
      → (wait_turn turn_error timeout_text es w).1 ≡ none
      → (wait_turn turn_error timeout_text es w).0.timer_set ≡ expected w (heard es)
  unfolding wait_turn Consistent heard is_stalled all_quiet
  timer [] w k h = ground (arith, k.0, k.1)
  timer (e ∷ es) w k h =
      let next = (wait_step turn_error timeout_text e w).0 in
      let on =
        goes_on (wait_step turn_error timeout_text e w) (wait_turn turn_error timeout_text es next)
          h in
      let same = on.1 (wait_turn turn_error timeout_text es next) in
      let rest =
        timer es next (step-Consistent e w k)
          (ap (λ (r : Wait × Option TurnEnd). r.1) (sym same) ∙ h) in
      ap (λ (r : Wait × Option TurnEnd). r.0.timer_set) same ∙ rest ∙ step-expected e es w k on.0

  after :
      (es : List WaitEvent) (e : WaitEvent) (w : Wait)
      → (wait_turn turn_error timeout_text es w).1 ≡ none
      → (wait_turn turn_error timeout_text (es ++ e ∷ []) w).1
        ≡ (wait_step turn_error timeout_text e (wait_turn turn_error timeout_text es w).0).1
  unfolding wait_turn
  after [] e w h = last_step (wait_step turn_error timeout_text e w)
  after (x ∷ es) e w h =
      let next = (wait_step turn_error timeout_text x w).0 in
      let on =
        goes_on (wait_step turn_error timeout_text x w) (wait_turn turn_error timeout_text es next)
          h in
      let same = on.1 (wait_turn turn_error timeout_text es next) in
      ap (λ (r : Wait × Option TurnEnd). r.1) (on.1 _)
      ∙ after es e next (ap (λ (r : Wait × Option TurnEnd). r.1) (sym same) ∙ h)
      ∙ ap (λ (r : Wait × Option TurnEnd). (wait_step turn_error timeout_text e r.0).1) (sym same)

  start : Consistent first_wait
  unfolding Consistent
  start = (refl, refl)

  -- Whatever events come before it without ending the wait: the timer of the first turn ends the run,
  -- as a timeout without progress, exactly if the turn has been reported as running and nothing after that was progress.
  pub no_progress_ends :
      (es : List WaitEvent)
      → (wait_turn turn_error timeout_text es first_wait).1 ≡ none
      → (wait_turn turn_error timeout_text (es ++ no_progress ∷ []) first_wait).1
        ≡ (if is_stalled (heard es) then some (times_out first_turn_no_progress) else none)
  unfolding wait_step
  no_progress_ends es h = after es no_progress first_wait h ∙ rw (timer es first_wait start h) refl
