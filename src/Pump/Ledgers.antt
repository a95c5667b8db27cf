-- ===== src/Pump/Ledgers.antt =====
-- What the exec pump (daemon/internal/server/exec_pump.go) stores and sends, and in which order.
use meowth.Prelude.{
  ℕ, ◌+◌, ◌≤◌, ◌≡◌, ◌∙◌, Bool, false, not, ◌&&◌, List, [], ◌∷◌, ◌++◌, append_assoc, Option, none,
  some, String, str_eq, Bytes, Result, ok, err, arith, Bool-cases, inl, inr, ◌⊎◌,
}
use meowth.Envelope.{Envelope, Builder, EnvelopeError, ErrorPayload, encode_line}
use meowth.Envelope.Numbers.{IsBuilt, message-IsBuilt, error-IsBuilt, KeepsSeq, truncate-KeepsSeq}
use meowth.Envelope.Truncate.{truncate_message_content}
use meowth.Store.Messages.{MessageRow, Messages, MessageError, append_message}
use meowth.Pump.{
  PumpError, Config, Pump, Io, Arrival, persist_and_write, stamp, encoded, appended, row_of,
  note_backend_id, emit_notice, after_message, emit_truncated, emit_built, pump_message,
  message_payload_from_agent, is_empty,
}

-- The ledger of a stream that starts at the number `from`: the rows it adds, the lines it sends, the
-- next number, and whether session_ended is among the rows. Every line is a row's, sent after it.
pub data Emitted (from : ℕ) : List MessageRow → List Bytes → ℕ → Bool → Type 0 where
  nothing : Emitted from [] [] from false
  skipped :
      {rows : List MessageRow} {lines : List Bytes} {n : ℕ} {b : Bool}
      → (m : ℕ) → n ≤ m
      → Emitted from rows lines n b
      → Emitted from rows lines m b
  stored :
      {rows : List MessageRow} {lines : List Bytes} {n : ℕ}
      → (row : MessageRow) → n ≤ row.seq
      → Emitted from rows lines n false
      → Emitted from (rows ++ row ∷ []) lines (row.seq + 1) (str_eq row.event_type "session_ended")
  sent :
      {rows : List MessageRow} {lines : List Bytes} {n : ℕ}
      → (row : MessageRow) → n ≤ row.seq
      → Emitted from rows lines n false
      → Emitted from
          (rows ++ row ∷ [])
          (lines ++ row.envelope_json ∷ [])
          (row.seq + 1)
          (str_eq row.event_type "session_ended")

-- A stream that starts with these rows and lines, at this number.
pub record Origin : Type 0 where
  pub messages : Messages
  pub wire : List Bytes
  pub from : ℕ

-- The rows and lines of the pump are those of the origin, and then a ledger's.
pub record Ledger (o : Origin) (s : Pump) (n : ℕ) (b : Bool) : Type 0 where
  pub rows : List MessageRow
  pub lines : List Bytes
  pub stored_rows : s.messages ≡ o.messages ++ rows
  pub sent_lines : s.wire ≡ o.wire ++ lines
  pub ledger : Emitted o.from rows lines n b

-- A ledger up to the builder's next number.
abbrev pub Open : Origin → Pump → Type 0
Open o s = Ledger o s s.builder.next_seq false

-- After an emission: the row is there, or the failed one is not.
unfoldable pub After : Origin → Bool → Pump × Option PumpError → Type 0
After o b (s, none) = Ledger o s s.builder.next_seq b
After o b (s, some e) = Ledger o s s.builder.next_seq false

module _ (cfg : Config) (o : Origin) where
  append-cases :
      (fails : Bool) (s : Pump) (row : MessageRow)
      → (append_message fails s.sessions row s.messages ≡ ok (s.messages ++ row ∷ []))
        ⊎ ((e : MessageError) × (append_message fails s.sessions row s.messages ≡ err e))
  unfolding append_message
  append-cases fails s row = ground arith

  persist-After :
      (io : Io) (env : Envelope) (kind : String) (s : Pump) (n : ℕ)
      → n ≤ env.seq
      → s.builder.next_seq ≡ env.seq + 1
      → Ledger o s n false
      → After o (str_eq kind "session_ended") (persist_and_write cfg io env kind s)
  unfolding persist_and_write encoded appended row_of After
  persist-After io env kind s n le next h = on_line (encode_line cfg.codec env)
    where
      kept : Ledger o s s.builder.next_seq false
      kept = record {
        rows = h.rows;
        lines = h.lines;
        stored_rows = h.stored_rows;
        sent_lines = h.sent_lines;
        ledger = skipped s.builder.next_seq (ground arith) h.ledger;
      }

      on_line :
          (r : Result EnvelopeError Bytes)
          → After o (str_eq kind "session_ended") (encoded cfg io env kind s r)
      on_line (err e) = kept
      on_line (ok line) = elim (append-cases io.append_fails s (row_of cfg env kind line)) [
        | inr (e, f) ↦ rw f kept
        | inl f ↦ rw f (elim (Bool-cases io.write_fails) [
          | inl lost ↦
              rw (lost, next)
                (record {
                  rows = h.rows ++ row_of cfg env kind line ∷ [];
                  lines = h.lines;
                  stored_rows = rw h.stored_rows (append_assoc o.messages h.rows _);
                  sent_lines = h.sent_lines;
                  ledger = stored (row_of cfg env kind line) le h.ledger;
                })
          | inr through ↦
              rw (through, next)
                (record {
                  rows = h.rows ++ row_of cfg env kind line ∷ [];
                  lines = h.lines ++ line ∷ [];
                  stored_rows = rw h.stored_rows (append_assoc o.messages h.rows _);
                  sent_lines = rw h.sent_lines (append_assoc o.wire h.lines _);
                  ledger = sent (row_of cfg env kind line) le h.ledger;
                })
        ])
      ]

  pub stamp-After :
      (now : ℕ) (b : Bool) (r : Pump × Option PumpError) → After o b r → After o b (stamp cfg now r)
  unfolding stamp After
  stamp-After now b (s, none) h = record {
    rows = h.rows;
    lines = h.lines;
    stored_rows = h.stored_rows;
    sent_lines = h.sent_lines;
    ledger = h.ledger;
  }
  stamp-After now b (s, some e) h = h

  note-Open : (a : Arrival) (s : Pump) → Open o s → Open o (note_backend_id cfg a s)
  unfolding note_backend_id
  note-Open a s h =
      elim (Bool-cases (not (is_empty a.message.session_id) && is_empty s.backend_session_id)) [
        | inl c ↦ rw c (record {
          rows = h.rows;
          lines = h.lines;
          stored_rows = h.stored_rows;
          sent_lines = h.sent_lines;
          ledger = h.ledger;
        })
        | inr c ↦ rw c h
      ]

  -- The same pump, with another builder.
  rebuild :
      (s : Pump) (b : Builder)
      → Open o s
      → Ledger o (record s { builder = b }) s.builder.next_seq false
  rebuild s b h = record {
    rows = h.rows;
    lines = h.lines;
    stored_rows = h.stored_rows;
    sent_lines = h.sent_lines;
    ledger = h.ledger;
  }

  pub unbuilt :
      (s : Pump) (b : Builder) → b ≡ s.builder → Open o s → Open o (record s { builder = b })
  unbuilt s b e h = rw e h

  -- An envelope that the builder has just made goes out.
  pub built-After :
      (io : Io) (env : Envelope) (kind : String) (s : Pump) (b : Builder)
      → env.seq ≡ s.builder.next_seq
      → b.next_seq ≡ s.builder.next_seq + 1
      → Open o s
      → After o
          (str_eq kind "session_ended")
          (persist_and_write cfg io env kind (record s { builder = b }))
  built-After io env kind s b e n h =
      persist-After io env kind (record s { builder = b }) s.builder.next_seq (ground arith)
        (ground arith) (rebuild s b h)

  skip_number :
      (s : Pump) (b : Builder)
      → b.next_seq ≡ s.builder.next_seq + 1
      → Open o s
      → Open o (record s { builder = b })
  skip_number s b n h = record {
    rows = h.rows;
    lines = h.lines;
    stored_rows = h.stored_rows;
    sent_lines = h.sent_lines;
    ledger = skipped b.next_seq (ground arith) h.ledger;
  }

  notice-After :
      (a : Arrival) (s : Pump) (x : Builder × Result EnvelopeError Envelope)
      → IsBuilt s.builder x
      → Open o s
      → After o false (emit_notice cfg a s x)
  unfolding emit_notice IsBuilt
  notice-After a s (b, err e) h g = unfold After in unbuilt s b h g
  notice-After a s (b, ok env) h g = built-After a.notice env "error" s b h.0 h.1 g

  after_message-After :
      (a : Arrival) (p : Option ErrorPayload) (r : Pump × Option PumpError)
      → After o false r
      → After o false (after_message cfg a p r)
  unfolding after_message
  after_message-After a p (s, some e) h = h
  after_message-After a none (s, none) h = h
  after_message-After a (some p) (s, none) h =
      notice-After a s _ (error-IsBuilt cfg.codec s.builder a.notice.now p) (unfold After in h)

  emit_built-After :
      (a : Arrival) (s : Pump) (x : Builder × Result EnvelopeError Envelope)
      → IsBuilt s.builder x
      → Open o s
      → After o false (emit_built cfg a s x)
  unfolding emit_built IsBuilt emit_truncated KeepsSeq
  emit_built-After a s (b, err e) h g = unfold After in unbuilt s b h g
  emit_built-After a s (b, ok env) h g =
      on_cut (truncate_message_content cfg.codec env) (truncate-KeepsSeq cfg.codec env)
    where
      on_cut :
          (t : Result EnvelopeError (Envelope × Option ErrorPayload))
          → KeepsSeq env t
          → After o false (emit_truncated cfg a (record s { builder = b }) t)
      on_cut (err e) k = unfold After in skip_number s b h.1 g
      on_cut (ok (env', notice)) k =
          after_message-After a notice _ (
            stamp-After a.first.now false _
              (built-After a.first env' "message" s b (k ∙ h.0) h.1 g))

  pub pump_message-After :
      (a : Arrival) (s : Pump) → Open o s → After o false (pump_message cfg a s)
  unfolding pump_message
  pump_message-After a s h =
      emit_built-After a (note_backend_id cfg a s) _
        (message-IsBuilt cfg.codec _ a.first.now (message_payload_from_agent a.message))
        (note-Open a s h)
