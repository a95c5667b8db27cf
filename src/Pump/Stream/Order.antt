-- ===== src/Pump/Stream/Order.antt =====
-- The order of what the exec pump (daemon/internal/server/exec_pump.go) stores and sends, over a
-- whole stream.
use meowth.Prelude.{
  ℕ, ◌-◌, ◌≡◌, refl, sym, ◌∙◌, subst, Bool, true, false, not, ◌&&◌, List, [], ◌∷◌, append-nil,
  Option, none, some, ltb, Bytes, Result, ok, err, arith, Bool-cases, inl, inr,
}
use meowth.Envelope.{Envelope, Builder, EnvelopeError, build_session_ended, new_builder}
use meowth.Envelope.Numbers.{IsBuilt, heartbeat-IsBuilt, ended-IsBuilt, started-IsBuilt}
use meowth.Pump.{
  AgentResult, PumpError, PumpResult, Config, Pump, Io, Arrival, Ending, Event, cancelled, tick,
  arrival, closed, result, is_empty, pump_message, then_drain, drain,
}
use meowth.Pump.Stream.{
  Opening, finalize, abort, late_backend_id, close_row, emit_end, ended_payload, over,
  go_on_or_abort, emit_heartbeat, on_tick, finalize_drained, finalize_anyway, on_event,
  continue_with, loop, start, with_interval, no_payload, primed, pump_agent_session,
}
use meowth.Pump.Ledgers.{
  nothing, Origin, Ledger, Open, After, built-After, stamp-After, unbuilt, pump_message-After,
}

-- The stream has ended, and no failure was reported.
unfoldable pub ended_well : Option PumpResult → Bool
ended_well none = false
ended_well (some r) = elim r.persist_err [ none ↦ true | some e ↦ false ]

-- A ledger up to the builder's next number, with session_ended in it if the result is without a
-- failure.
Done : Origin → Pump × Option PumpResult → Type 0
Done o (s, r) = Ledger o s s.builder.next_seq (ended_well r)

module _ (cfg : Config) (o : Origin) where
  then-After :
      (next : Pump → Pump × Option PumpError)
      → ((s : Pump) → Open o s → After o false (next s))
      → (r : Pump × Option PumpError) → After o false r
      → After o false (then_drain cfg next r)
  unfolding then_drain
  then-After next f (s, some e) h = h
  then-After next f (s, none) h = f s (unfold After in h)

  drain-After :
      (buffered : List Arrival) (s : Pump) → Open o s → After o false (drain cfg buffered s)
  unfolding drain
  drain-After [] s h = unfold After in h
  drain-After (a ∷ rest) s h =
      then-After (drain cfg rest) (drain-After rest) (pump_message cfg a s)
        (pump_message-After cfg o a s h)

  -- The sessions of the pump and its clocks are no matter of the ledger.
  Ended : Pump × PumpResult → Type 0
  Ended (s, r) = Done o (s, some r)

  late-Open :
      (end : Ending) (id : Bytes) (s : Pump) → Open o s → Open o (late_backend_id cfg end id s)
  unfolding late_backend_id
  late-Open end id s h = elim (Bool-cases (not (is_empty id) && is_empty s.backend_session_id)) [
    | inl c ↦ rw c (record {
      rows = h.rows;
      lines = h.lines;
      stored_rows = h.stored_rows;
      sent_lines = h.sent_lines;
      ledger = h.ledger;
    })
    | inr c ↦ rw c h
  ]

  failed-Ended :
      (s s' : Pump) (r : PumpResult)
      → ended_well (some r) ≡ false
      → s'.messages ≡ s.messages
      → s'.wire ≡ s.wire
      → s'.builder ≡ s.builder
      → Open o s
      → Ended (s', r)
  unfolding Done Ended
  failed-Ended s s' r f m w b h =
      rw (f, b)
        (record {
          rows = h.rows;
          lines = h.lines;
          stored_rows = m ∙ h.stored_rows;
          sent_lines = w ∙ h.sent_lines;
          ledger = h.ledger;
        })

  close-Ended :
      (end : Ending) (r : AgentResult) (x : Pump × Option PumpError)
      → After o true x
      → Ended (close_row cfg end r x)
  unfolding close_row After
  close-Ended end r (s, some e) h = failed-Ended s _ _ (unfold ended_well in refl) refl refl refl h
  close-Ended end r (s, none) h =
      unfold Ended in
      unfold Done in
      unfold ended_well in
      record {
        rows = h.rows;
        lines = h.lines;
        stored_rows = h.stored_rows;
        sent_lines = h.sent_lines;
        ledger = h.ledger;
      }

  emit_end-Ended :
      (end : Ending) (r : AgentResult) (s : Pump) (x : Builder × Result EnvelopeError Envelope)
      → IsBuilt s.builder x
      → Open o s
      → Ended (emit_end cfg end r s x)
  unfolding emit_end IsBuilt
  emit_end-Ended end r s (b, err e) h g =
      failed-Ended s _ _ (unfold ended_well in refl) refl refl h g
  emit_end-Ended end r s (b, ok env) h g = close-Ended end r _ (
      stamp-After cfg o end.io.now true _
        (built-After cfg o end.io env "session_ended" s b h.0 h.1 g))

  late-builder :
      (end : Ending) (id : Bytes) (s : Pump) → (late_backend_id cfg end id s).builder ≡ s.builder
  unfolding late_backend_id
  late-builder end id s = ground arith

  finalize-Ended :
      (end : Ending) (r : AgentResult) (s : Pump) → Open o s → Ended (finalize cfg end r s)
  unfolding finalize
  finalize-Ended end r s h =
      let p = ended_payload cfg end r s.backend_session_id in
      emit_end-Ended end r (late_backend_id cfg end r.session_id s)
        (build_session_ended cfg.codec p s.builder end.io.now)
        (subst (λ b. IsBuilt b (build_session_ended cfg.codec p s.builder end.io.now))
          (sym (late-builder end r.session_id s)) (ended-IsBuilt cfg.codec s.builder end.io.now p))
        (late-Open end r.session_id s h)

  abort-Ended : (end : Ending) (s : Pump) (e : PumpError) → Open o s → Ended (abort cfg end s e)
  unfolding abort
  abort-Ended end s e h = failed-Ended s _ _ (unfold ended_well in refl) refl refl refl h

  over-Done : (x : Pump × PumpResult) → Ended x → Done o (over cfg x)
  unfolding over Ended
  over-Done (s, r) h = h

  still-Done : (s : Pump) → Open o s → Done o (s, none)
  unfolding Done ended_well
  still-Done s h = h

  go_on-Done :
      (end : Ending) (x : Pump × Option PumpError)
      → After o false x
      → Done o (go_on_or_abort cfg end x)
  unfolding go_on_or_abort After
  go_on-Done end (s, none) h = still-Done s h
  go_on-Done end (s, some e) h = over-Done (abort cfg end s e) (abort-Ended end s e h)

  heartbeat-Done :
      (io : Io) (end : Ending) (s : Pump) (x : Builder × Result EnvelopeError Envelope)
      → IsBuilt s.builder x
      → Open o s
      → Done o (emit_heartbeat cfg io end s x)
  unfolding emit_heartbeat IsBuilt
  heartbeat-Done io end s (b, err e) h g = still-Done _ (unbuilt cfg o s b h g)
  heartbeat-Done io end s (b, ok env) h g =
      go_on-Done end _
        (stamp-After cfg o io.now false _ (built-After cfg o io env "heartbeat" s b h.0 h.1 g))

  tick-Done : (io : Io) (end : Ending) (s : Pump) → Open o s → Done o (on_tick cfg io end s)
  unfolding on_tick
  tick-Done io end s h = elim (Bool-cases (ltb (io.now - s.last_emit) cfg.heartbeat_interval)) [
    | inl early ↦ rw early (still-Done s h)
    | inr due ↦ rw due (
        heartbeat-Done io end s _
          (heartbeat-IsBuilt cfg.codec s.builder io.now (io.now - s.last_emit)) h)
  ]

  drained-Ended :
      (end : Ending) (r : AgentResult) (x : Pump × Option PumpError)
      → After o false x
      → Ended (finalize_drained cfg end r x)
  unfolding finalize_drained After
  drained-Ended end r (s, some e) h = abort-Ended end s e h
  drained-Ended end r (s, none) h = finalize-Ended end r s h

  anyway-Ended :
      (end : Ending) (r : AgentResult) (x : Pump × Option PumpError)
      → After o false x
      → Ended (finalize_anyway cfg end r x)
  unfolding finalize_anyway After
  anyway-Ended end r (s, some e) h = finalize-Ended end r s h
  anyway-Ended end r (s, none) h = finalize-Ended end r s h

  event-Done : (e : Event) (s : Pump) → Open o s → Done o (on_event cfg e s)
  unfolding on_event
  event-Done (cancelled buffered r end) s h =
      over-Done _ (anyway-Ended end _ (drain cfg buffered s) (drain-After buffered s h))
  event-Done (tick io end) s h = tick-Done io end s h
  event-Done (arrival a end) s h = go_on-Done end _ (pump_message-After cfg o a s h)
  event-Done (closed r end) s h = over-Done _ (finalize-Ended end _ s h)
  event-Done (result none buffered end) s h = over-Done _ (finalize-Ended end _ s h)
  event-Done (result (some r) buffered end) s h =
      over-Done _ (drained-Ended end r (drain cfg buffered s) (drain-After buffered s h))

  continue-Done :
      (next : Pump → Pump × Option PumpResult)
      → ((s : Pump) → Open o s → Done o (next s))
      → (x : Pump × Option PumpResult) → Done o x
      → Done o (continue_with cfg next x)
  unfolding continue_with Done
  continue-Done next f (s, some r) h = h
  continue-Done next f (s, none) h = f s (unfold ended_well in h)

  loop-Done : (es : List Event) (s : Pump) → Open o s → Done o (loop cfg es s)
  unfolding loop
  loop-Done [] s h = still-Done s h
  loop-Done (e ∷ es) s h =
      continue-Done (loop cfg es) (loop-Done es) (on_event cfg e s) (event-Done e s h)

-- The whole of a stream: its ledger up to some number, with session_ended if it ended well.
pub Delivered : Origin → Pump × Option PumpResult → Type 0
Delivered o (s, r) = (n : ℕ) × Ledger o s n (ended_well r)

Done-Delivered : (o : Origin) (x : Pump × Option PumpResult) → Done o x → Delivered o x
unfolding Delivered Done
Done-Delivered o (s, r) h = (s.builder.next_seq, h)

abbrev pub origin : Opening → Origin
origin o = record { messages = o.messages; wire = o.wire; from = 1 }

untouched : (cfg : Config) (o : Opening) (b : Builder) → Ledger (origin o) (start cfg o b) 1 false
unfolding start
untouched cfg o b = record {
  rows = [];
  lines = [];
  stored_rows = sym (append-nil o.messages);
  sent_lines = sym (append-nil o.wire);
  ledger = nothing;
}

primed-Delivered :
    (cfg : Config) (es : List Event) (o : Opening) (b : Builder)
    (x : Builder × Result EnvelopeError Envelope)
    → b.next_seq ≡ 0
    → IsBuilt b x
    → Delivered (origin o) (primed cfg es o x)
unfolding primed IsBuilt
primed-Delivered cfg es o b (b', err e) z h =
    unfold Delivered in unfold ended_well in (1, untouched cfg o b')
primed-Delivered cfg es o b (b', ok env) z h = Done-Delivered (origin o) _ (
    loop-Done cfg (origin o) es (start cfg o b') (
      subst (λ n. Ledger (origin o) (start cfg o b') n false) (unfold start in ground arith)
        (untouched cfg o b')))

-- The pump of one stream, whatever comes and whatever fails: it only adds rows and lines to those
-- it starts with; each line is the text of one of the added rows, sent after that row was stored
-- and before the next one is; the numbers of the added rows rise from 1; and session_ended is the
-- last of them if the pump has returned a result without a failure, and none of them otherwise.
pub pump-Delivered :
    (cfg : Config) (es : List Event) (o : Opening)
    → Delivered (origin o) (pump_agent_session cfg es o)
unfolding pump_agent_session
pump-Delivered cfg es o =
    primed-Delivered (with_interval cfg) es o (new_builder cfg.session_id) _ refl
      (started-IsBuilt cfg.codec (new_builder cfg.session_id) o.now no_payload)
