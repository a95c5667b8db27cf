-- ===== src/Pump/Stream/Outcome.antt =====
-- That the exec pump (daemon/internal/server/exec_pump.go) returns, and with which status.
use meowth.Prelude.{
  ◌-◌, ◌≡◌, refl, Bool, true, false, ◌&&◌, ◌||◌, List, [], ◌∷◌, Option, none, some, String, str_eq,
  ltb, if◌then◌else◌, Bytes, Result, ok, err, Bool-cases, inl, inr,
}
use meowth.Envelope.{Envelope, Builder, EnvelopeError}
use meowth.Envelope.Wire.{status_from_agent_result}
use meowth.Store.Sessions.{is_terminal, status_is_valid}
use meowth.Pump.{
  AgentResult, PumpError, PumpResult, Config, Pump, Io, Ending, Event, cancelled, tick, arrival,
  closed, result, is_empty,
}
use meowth.Pump.Stream.{
  Opening, final_status, finalize, abort, late_backend_id, close_row, emit_end, over,
  go_on_or_abort, emit_heartbeat, on_tick, finalize_drained, finalize_anyway, on_event,
  continue_with, loop, start, with_interval, primed, pump_agent_session,
}

-- Client gone or cancel, closed messages, or a result: what ends a stream in any state.
abbrev pub ends : Event → Bool
ends (tick io end) = false
ends (arrival a end) = false
ends _ = true

abbrev pub some_ends : List Event → Bool
some_ends [] = false
some_ends (e ∷ es) = ends e || some_ends es

abbrev pub has_result : Pump × Option PumpResult → Bool
has_result (s, none) = false
has_result (s, some r) = true

-- A status that is terminal, and one that the sessions table takes.
unfoldable pub is_end : String → Bool
is_end s = is_terminal s && status_is_valid s

-- A result, if there is one, has such a status.
abbrev pub IsFinal : Pump × Option PumpResult → Type 0
IsFinal (s, none) = Unit
IsFinal (s, some r) = is_end r.status ≡ true

-- One of five words, by the first test that holds.
abbrev word : Bool → Bool → Bool → Bool → Bool → String
word a b c d e =
    if a
    then "completed"
    else if b
    then "failed"
    else if c
    then "aborted"
    else if d
    then "timeout"
    else if e
    then "cancelled"
    else "failed"

word-is_terminal : (a b c d e : Bool) → is_end (word a b c d e) ≡ true
unfolding is_end is_terminal status_is_valid
word-is_terminal true b c d e = refl
word-is_terminal false true c d e = refl
word-is_terminal false false true d e = refl
word-is_terminal false false false true e = refl
word-is_terminal false false false false true = refl
word-is_terminal false false false false false = refl

status-is_terminal : (raw : Bytes) → is_end (status_from_agent_result raw) ≡ true
unfolding status_from_agent_result
status-is_terminal raw = word-is_terminal _ _ _ _ _

final_status-is_terminal : (shut : Bool) (raw : Bytes) → is_end (final_status shut raw) ≡ true
unfolding final_status
final_status-is_terminal shut raw =
    elim (Bool-cases
      (shut && (str_eq (status_from_agent_result raw) "cancelled" || is_empty raw))) [
        | inl c ↦ rw c (unfold is_end in unfold is_terminal in unfold status_is_valid in refl)
        | inr c ↦ rw c (status-is_terminal raw)
      ]

module _ (cfg : Config) where
  close-terminal :
      (end : Ending) (r : AgentResult) (x : Pump × Option PumpError)
      → is_end (close_row cfg end r x).1.status ≡ true
  unfolding close_row abort
  close-terminal end r (s, some e) =
      unfold is_end in unfold is_terminal in unfold status_is_valid in refl
  close-terminal end r (s, none) = final_status-is_terminal end.is_shutdown r.status

  emit_end-terminal :
      (end : Ending) (r : AgentResult) (s : Pump) (x : Builder × Result EnvelopeError Envelope)
      → is_end (emit_end cfg end r s x).1.status ≡ true
  unfolding emit_end
  emit_end-terminal end r s (b, err e) =
      unfold is_end in unfold is_terminal in unfold status_is_valid in refl
  emit_end-terminal end r s (b, ok env) = close-terminal end r _

  finalize-terminal :
      (end : Ending) (r : AgentResult) (s : Pump) → is_end (finalize cfg end r s).1.status ≡ true
  unfolding finalize
  finalize-terminal end r s = emit_end-terminal end r (late_backend_id cfg end r.session_id s) _

  go_on-IsFinal : (end : Ending) (x : Pump × Option PumpError) → IsFinal (go_on_or_abort cfg end x)
  unfolding go_on_or_abort over abort is_end is_terminal status_is_valid
  go_on-IsFinal end (s, none) = tt
  go_on-IsFinal end (s, some e) = refl

  heartbeat-IsFinal :
      (io : Io) (end : Ending) (s : Pump) (x : Builder × Result EnvelopeError Envelope)
      → IsFinal (emit_heartbeat cfg io end s x)
  unfolding emit_heartbeat
  heartbeat-IsFinal io end s (b, err e) = tt
  heartbeat-IsFinal io end s (b, ok env) = go_on-IsFinal end _

  tick-IsFinal : (io : Io) (end : Ending) (s : Pump) → IsFinal (on_tick cfg io end s)
  unfolding on_tick
  tick-IsFinal io end s = elim (Bool-cases (ltb (io.now - s.last_emit) cfg.heartbeat_interval)) [
    | inl early ↦ rw early tt
    | inr due ↦ rw due (heartbeat-IsFinal io end s _)
  ]

  drained-terminal :
      (end : Ending) (r : AgentResult) (x : Pump × Option PumpError)
      → is_end (finalize_drained cfg end r x).1.status ≡ true
  unfolding finalize_drained
  drained-terminal end r (s, none) = finalize-terminal end r s
  drained-terminal end r (s, some e) =
      unfold abort in unfold is_end in unfold is_terminal in unfold status_is_valid in refl

  event-IsFinal : (e : Event) (s : Pump) → IsFinal (on_event cfg e s)
  unfolding on_event over finalize_anyway
  event-IsFinal (cancelled buffered r end) s = finalize-terminal end _ _
  event-IsFinal (tick io end) s = tick-IsFinal io end s
  event-IsFinal (arrival a end) s = go_on-IsFinal end _
  event-IsFinal (closed r end) s = finalize-terminal end _ _
  event-IsFinal (result none buffered end) s = finalize-terminal end _ _
  event-IsFinal (result (some r) buffered end) s = drained-terminal end r _

  event-ends : (e : Event) (s : Pump) → ends e ≡ true → has_result (on_event cfg e s) ≡ true
  unfolding on_event over
  event-ends (cancelled buffered r end) s h = refl
  event-ends (tick io end) s h = cc
  event-ends (arrival a end) s h = cc
  event-ends (closed r end) s h = refl
  event-ends (result none buffered end) s h = refl
  event-ends (result (some r) buffered end) s h = refl

  continue-Final :
      (next : Pump → Pump × Option PumpResult) (later : Bool)
      → ((s : Pump) → IsFinal (next s) × (later ≡ true → has_result (next s) ≡ true))
      → (now : Bool) (x : Pump × Option PumpResult) → IsFinal x
      → (now ≡ true → has_result x ≡ true)
      → IsFinal (continue_with cfg next x)
        × ((now || later) ≡ true → has_result (continue_with cfg next x) ≡ true)
  unfolding continue_with
  continue-Final next later f now (s, some r) h g = (h, λ e. refl)
  continue-Final next later f true (s, none) h g = cc (g refl)
  continue-Final next later f false (s, none) h g = f s

  loop-Final :
      (es : List Event) (s : Pump)
      → IsFinal (loop cfg es s) × (some_ends es ≡ true → has_result (loop cfg es s) ≡ true)
  unfolding loop
  loop-Final [] s = (tt, λ e. cc)
  loop-Final (e ∷ es) s =
      continue-Final (loop cfg es) (some_ends es) (loop-Final es) (ends e) (on_event cfg e s)
        (event-IsFinal e s) (event-ends e s)

primed-Final :
    (cfg : Config) (es : List Event) (o : Opening) (x : Builder × Result EnvelopeError Envelope)
    → some_ends es ≡ true
    → IsFinal (primed cfg es o x) × (has_result (primed cfg es o x) ≡ true)
unfolding primed
primed-Final cfg es o (b, err e) h =
    (unfold is_end in unfold is_terminal in unfold status_is_valid in refl, refl)
primed-Final cfg es o (b, ok env) h = let (f, g) = loop-Final cfg es (start cfg o b) in (f, g h)

-- If the client leaves or the cancel fires, the messages close, or the result comes, then the pump
-- has returned, whatever else came before or fails, and with a status that is an end of a session.
pub pump-returns :
    (cfg : Config) (es : List Event) (o : Opening)
    → some_ends es ≡ true
    → IsFinal (pump_agent_session cfg es o) × (has_result (pump_agent_session cfg es o) ≡ true)
unfolding pump_agent_session
pump-returns cfg es o h = primed-Final (with_interval cfg) es o _ h
