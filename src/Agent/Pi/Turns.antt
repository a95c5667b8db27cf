-- ===== src/Agent/Pi/Turns.antt =====
-- What becomes of a turn's text in the pi backend (Agent/Pi.antt).
use meowth.Prelude.{
  ◌≡◌, refl, sym, ap, ◌∙◌, true, false, List, [], ◌∷◌, ◌++◌, append_assoc, append-nil, map, some,
  String, every, Bytes, concat, arith,
}
use meowth.Agent.Pi.Markup.{drain_pi_text_buffer}
use meowth.Agent.Pi.Markup.Plain.{is_plain, drained, flushed, plain-append}
use meowth.Agent.Pi.{
  PiMessage, PiStreamEvent, message_start, message_end, text_delta, PiState, commit, is_assistant,
  record_usage, record_assistant_usage, on_message_start, on_message_end, on_text, on_pi_event,
  run_pi,
}
use meowth.Agent.Pi.Committed.{commits}

abbrev pub deltas : List Bytes → List PiStreamEvent
deltas ds = map (λ (d : Bytes). text_delta d) ds

abbrev Holds : PiState → Bytes → Bytes → Type 0
Holds st out text =
    (st.attempt_text ++ st.text_buffer ≡ text)
    × (is_plain st.text_buffer ≡ true)
    × (st.committed_output ≡ out)

delta-Holds :
    (options : String) (d : Bytes) (st : PiState) (out text : Bytes)
    → is_plain d ≡ true
    → Holds st out text
    → Holds (on_pi_event options (text_delta d) st).1 out (text ++ d)
unfolding on_pi_event on_text drain_pi_text_buffer
delta-Holds options d st out text k h =
    let (e, q) = drained (st.text_buffer ++ d) (plain-append st.text_buffer d h.1 k) in
    (
      append_assoc st.attempt_text _ _
          ∙ rw e (sym (append_assoc st.attempt_text st.text_buffer d) ∙ ap (λ t. t ++ d) h.0),
      q,
      h.2,
    )

deltas-Holds :
    (options : String) (ds : List Bytes) (rest : List PiStreamEvent) (st : PiState)
    (out text : Bytes)
    → every is_plain ds ≡ true
    → Holds st out text
    → (st' : PiState) × (Holds st' out (text ++ concat ds))
      × ((run_pi options (deltas ds ++ rest) st).1 ≡ (run_pi options rest st').1)
      × (st'.attempt_emitted ≡ st.attempt_emitted)
unfolding run_pi concat
deltas-Holds options [] rest st out text k h = (st, rw (append-nil text) h, refl, refl)
deltas-Holds options (d ∷ ds) rest st out text k h =
    let next = (on_pi_event options (text_delta d) st).1 in
    let (st', held, same, emitted) =
      deltas-Holds options ds rest next out (text ++ d) (ground (arith, k))
        (delta-Holds options d st out text (ground (arith, k)) h) in
    (
      st',
      rw (sym (append_assoc text d (concat ds))) held,
      same,
      emitted ∙ unfold on_pi_event in unfold on_text in refl,
    )

recorded-Holds :
    (options : String) (m : PiMessage) (st : PiState) (out text : Bytes)
    → Holds st out text
    → Holds (record_assistant_usage options m st) out text
unfolding record_assistant_usage record_usage
recorded-Holds options m st out text h = ground (arith, h)

recorded-emitted :
    (options : String) (m : PiMessage) (st : PiState)
    → (record_assistant_usage options m st).attempt_emitted ≡ st.attempt_emitted
unfolding record_assistant_usage record_usage
recorded-emitted options m st = ground arith

commit-output :
    (st : PiState) (out text : Bytes)
    → Holds st out text
    → st.attempt_emitted ≡ false
    → (commit st).1.committed_output ≡ out ++ text
unfolding commit
commit-output st out text h e = rw (e, flushed st.text_buffer h.1, h.2, h.0) refl

commits-commit :
    (m : PiMessage) (st : PiState)
    → commits (message_end (some m)) ≡ true
    → on_message_end m st ≡ commit st
unfolding on_message_end commits
commits-commit m st c = ground (arith, c)

ended-output :
    (options : String) (m : PiMessage) (st : PiState) (out text : Bytes)
    → commits (message_end (some m)) ≡ true
    → Holds st out text
    → st.attempt_emitted ≡ false
    → (run_pi options (message_end (some m) ∷ []) st).1.committed_output ≡ out ++ text
unfolding run_pi on_pi_event
ended-output options m st out text c h e =
    let r = record_assistant_usage options m st in
    rw (commits-commit m r c) (
      commit-output r out text (recorded-Holds options m st out text h)
        (recorded-emitted options m st ∙ e))

-- However a turn's text is cut into deltas: if it has no colon and no angle bracket, and the message
-- of the assistant stops well, the turn adds exactly that text to the output, and no text that was
-- pending before it.
pub turn-output :
    (options : String) (a m : PiMessage) (ds : List Bytes) (st : PiState)
    → is_assistant a ≡ true
    → every is_plain ds ≡ true
    → commits (message_end (some m)) ≡ true
    → (run_pi options
        (message_start (some a) ∷ deltas ds ++ message_end (some m) ∷ [])
        st).1.committed_output
      ≡ st.committed_output ++ concat ds
unfolding run_pi on_pi_event on_message_start
turn-output options a m ds st s k c =
    let (st', held, same, emitted) =
      deltas-Holds options ds (message_end (some m) ∷ []) (on_message_start a st)
        st.committed_output [] k (rw s (refl, refl, refl)) in
    rw same
      (ended-output options m st' st.committed_output (concat ds) c held (emitted ∙ rw s refl))
