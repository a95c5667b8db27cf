-- ===== src/Agent/Codex/Notifications/Turns.antt =====
-- Turns of the codex client (Agent/Codex/Notifications.antt): each ends once, and the first error
-- stays.
use meowth.Prelude.{
  ℕ, ◌≡◌, refl, sym, ◌∙◌, Bool, true, false, List, [], ◌∷◌, Option, none, some, if◌then◌else◌,
  Bytes, codes, bytes_eq, bytes_eq_refl, is_blank, ℤ, arith, subst,
}
use meowth.Agent.Json.{Json, Fields, get}
use meowth.Agent.Codex.{
  CodexClient, Protocol, undecided, legacy, raw, Effect, answered, handle_response,
  handle_server_request, set_turn_error,
}
use meowth.Agent.Codex.Notifications.{
  handle_event, settle, turn_completed, turn_begun, on_error, handle_raw_notification, legacy_event,
  in_protocol, handle_notification, with_id, handle_line, by_id, handle_lines,
}
use meowth.Agent.Codex.Reading.{
  extract_nested_string, object_of, text_of, fields_of, contains_id, with_usage,
  extract_usage_from_map, or_zero, is_foreign,
}

-- The later client still has the turn among those that have ended, and the error that was set.
record Keeps (t : Bytes) (c d : CodexClient) : Type 0 where
  ids : contains_id t c.completed_turn_ids ≡ true → contains_id t d.completed_turn_ids ≡ true
  error : is_blank c.turn_error ≡ false → d.turn_error ≡ c.turn_error

Keeps-refl : (t : Bytes) (c : CodexClient) → Keeps t c c
Keeps-refl t c = record { ids = λ h. h; error = λ h. refl }

same-Keeps :
    (t : Bytes) (c d : CodexClient)
    → d.completed_turn_ids ≡ c.completed_turn_ids
    → d.turn_error ≡ c.turn_error
    → Keeps t c d
same-Keeps t c d e f = record {
  ids = λ h. subst (λ js. contains_id t js ≡ true) (sym e) h;
  error = λ h. f;
}

Keeps-trans : (t : Bytes) (c d e : CodexClient) → Keeps t c d → Keeps t d e → Keeps t c e
Keeps-trans t c d e k l = record {
  ids = λ h. l.ids (k.ids h);
  error = λ h. l.error (subst (λ x. is_blank x ≡ false) (sym (k.error h)) h) ∙ k.error h;
}

set_turn_error-Keeps : (t msg : Bytes) (c : CodexClient) → Keeps t c (set_turn_error msg c)
unfolding set_turn_error
set_turn_error-Keeps t msg c = record {
  ids = λ h. ground (arith, h);
  error = λ h. ground (arith, h);
}

handle_response-Keeps :
    (t : Bytes) (id : Option ℕ) (fs : Fields) (c : CodexClient)
    → Keeps t c (handle_response id fs c)
unfolding handle_response answered
handle_response-Keeps t none fs c = Keeps-refl t c
handle_response-Keeps t (some id) fs c = same-Keeps t c _ (ground arith) (ground arith)

server_request-Keeps :
    (t : Bytes) (id : ℕ) (method : Bytes) (params : Option Json) (c : CodexClient)
    → Keeps t c (handle_server_request id method params c).1
unfolding handle_server_request set_turn_error
server_request-Keeps t id method params c = record {
  ids = λ h. ground (arith, h);
  error = λ h. ground (arith, h);
}

module _ (int64_of : Bytes → Option ℤ) (t : Bytes) where
  with_usage-Keeps : (m : Option Fields) (c : CodexClient) → Keeps t c (with_usage int64_of m c)
  unfolding with_usage
  with_usage-Keeps none c = Keeps-refl t c
  with_usage-Keeps (some m) c = same-Keeps t c _ refl refl

  usage-Keeps : (fs : Fields) (c : CodexClient) → Keeps t c (extract_usage_from_map int64_of fs c)
  unfolding extract_usage_from_map
  usage-Keeps fs c = with_usage-Keeps _ c

  event-Keeps : (msg : Fields) (c : CodexClient) → Keeps t c (handle_event int64_of msg c).1
  unfolding handle_event
  event-Keeps msg c =
      let k = usage-Keeps msg c in
      record { ids = λ h. ground (arith, h, k.ids h); error = λ h. ground (arith, h, k.error h) }

  optional_usage-Keeps :
      (turn : Option Fields) (c : CodexClient)
      → Keeps t c (elim turn [ none ↦ c | some fs ↦ extract_usage_from_map int64_of fs c ])
  optional_usage-Keeps none c = Keeps-refl t c
  optional_usage-Keeps (some fs) c = usage-Keeps fs c

  known-Keeps :
      (id : Bytes) (c : CodexClient)
      → Keeps t c
          (if is_blank id then c else record c { completed_turn_ids = id ∷ c.completed_turn_ids })
  unfolding contains_id
  known-Keeps id c = record { ids = λ h. ground (arith, h); error = λ h. ground (arith, h) }

  settle-Keeps :
      (id : Bytes) (aborted : Bool) (turn : Option Fields) (c : CodexClient)
      → Keeps t c (settle int64_of id aborted turn c).1
  unfolding settle
  settle-Keeps id aborted turn c =
      let k = Keeps-trans t c _ _ (known-Keeps id c) (optional_usage-Keeps turn _) in
      record { ids = λ h. ground (arith, h, k.ids h); error = λ h. ground (arith, h, k.error h) }

  failed-Keeps :
      (b : Bool) (why : Bytes) (c : CodexClient) → Keeps t c (if b then set_turn_error why c else c)
  failed-Keeps true why c = set_turn_error-Keeps t why c
  failed-Keeps false why c = Keeps-refl t c

  completed-Keeps :
      (params : Fields) (c : CodexClient) → Keeps t c (turn_completed int64_of params c).1
  unfolding turn_completed
  completed-Keeps params c = Keeps-trans t c _ _ (failed-Keeps _ _ c) (settle-Keeps _ _ _ _)

  begun-Keeps : (params : Fields) (c : CodexClient) → Keeps t c (turn_begun int64_of params c).1
  unfolding turn_begun
  begun-Keeps params c = same-Keeps t c _ refl refl

  on_error-Keeps : (params : Fields) (c : CodexClient) → Keeps t c (on_error int64_of params c).1
  unfolding on_error set_turn_error
  on_error-Keeps params c = record { ids = λ h. ground (arith, h); error = λ h. ground (arith, h) }

  raw-Keeps :
      (method : Bytes) (params : Fields) (c : CodexClient)
      → Keeps t c (handle_raw_notification int64_of method params c).1
  unfolding handle_raw_notification
  raw-Keeps method params c =
      let begun = begun-Keeps params c in
      let completed = completed-Keeps params c in
      let failed = on_error-Keeps params c in
      record {
        ids = λ h. ground (arith, h, begun.ids h, completed.ids h, failed.ids h);
        error = λ h. ground (arith, h, begun.error h, completed.error h, failed.error h);
      }

  legacy-Keeps : (msg : Option Fields) (c : CodexClient) → Keeps t c (legacy_event int64_of msg c).1
  unfolding legacy_event
  legacy-Keeps none c = Keeps-refl t c
  legacy-Keeps (some fs) c = event-Keeps fs c

  in_protocol-Keeps :
      (p : Protocol) (method : Bytes) (params : Fields) (c : CodexClient)
      → Keeps t c (in_protocol int64_of p method params c).1
  unfolding in_protocol
  in_protocol-Keeps legacy method params c = Keeps-refl t c
  in_protocol-Keeps raw method params c = raw-Keeps method params c
  in_protocol-Keeps undecided method params c =
      let k = raw-Keeps method params (record c { protocol = raw }) in
      record { ids = λ h. ground (arith, h, k.ids h); error = λ h. ground (arith, h, k.error h) }

  notification-Keeps :
      (method : Bytes) (params : Fields) (c : CodexClient)
      → Keeps t c (handle_notification int64_of method params c).1
  unfolding handle_notification
  notification-Keeps method params c =
      let k = in_protocol-Keeps c.protocol method params c in
      let l = legacy-Keeps (object_of (get "msg" params)) (record c { protocol = legacy }) in
      record {
        ids = λ h. ground (arith, h, k.ids h, l.ids h);
        error = λ h. ground (arith, h, k.error h, l.error h);
      }

  module _ (id_of : Json → Option ℕ) where
    with_id-Keeps :
        (id : Json) (fs : Fields) (c : CodexClient) → Keeps t c (with_id int64_of id_of id fs c).1
    unfolding with_id
    with_id-Keeps id fs c =
        let k = handle_response-Keeps t (id_of id) fs c in
        let l =
          server_request-Keeps t (or_zero (id_of id)) (text_of (get "method" fs)) (get "params" fs)
            c in
        record {
          ids = λ h. ground (arith, h, k.ids h, l.ids h);
          error = λ h. ground (arith, h, k.error h, l.error h);
        }

    by_id-Keeps :
        (id : Option Json) (fs : Fields) (c : CodexClient)
        → Keeps t c (by_id int64_of id_of id fs c).1
    unfolding by_id
    by_id-Keeps (some id) fs c = with_id-Keeps id fs c
    by_id-Keeps none fs c =
        let k = notification-Keeps (text_of (get "method" fs)) (fields_of (get "params" fs)) c in
        record { ids = λ h. ground (arith, h, k.ids h); error = λ h. ground (arith, h, k.error h) }

    line-Keeps :
        (line : Option Fields) (c : CodexClient) → Keeps t c (handle_line int64_of id_of line c).1
    unfolding handle_line
    line-Keeps none c = Keeps-refl t c
    line-Keeps (some fs) c = by_id-Keeps (get "id" fs) fs c

    lines-Keeps :
        (lines : List (Option Fields)) (c : CodexClient)
        → Keeps t c (handle_lines int64_of id_of lines c).1
    unfolding handle_lines
    lines-Keeps [] c = Keeps-refl t c
    lines-Keeps (line ∷ lines) c = Keeps-trans t c _ _ (line-Keeps line c) (lines-Keeps lines _)

module _ (int64_of : Bytes → Option ℤ) (id_of : Json → Option ℕ) where
  abbrev turn_of : Fields → Bytes
  turn_of params = extract_nested_string params ("turn" ∷ "id" ∷ [])

  settled :
      (id : Bytes) (aborted : Bool) (turn : Option Fields) (c : CodexClient)
      → is_blank id ≡ false
      → contains_id id (settle int64_of id aborted turn c).1.completed_turn_ids ≡ true
  unfolding settle contains_id
  settled id aborted turn c h =
      let k =
        optional_usage-Keeps int64_of id turn
          (record c { completed_turn_ids = id ∷ c.completed_turn_ids }) in
      ground (arith, h, k.ids, bytes_eq_refl id)

  settled_again :
      (id : Bytes) (aborted : Bool) (turn : Option Fields) (c d : CodexClient)
      → is_blank id ≡ false
      → contains_id id d.completed_turn_ids ≡ true
      → d.usage ≡ c.usage
      → ((settle int64_of id aborted turn d).0 ≡ [])
        × ((settle int64_of id aborted turn d).1.usage ≡ c.usage)
  unfolding settle
  settled_again id aborted turn c d h k e = rw (h, k) (refl, e)

  abbrev completed : Bytes
  completed = codes "turn/completed"

  dispatch :
      (params : Fields) (c : CodexClient)
      → handle_raw_notification int64_of completed params c ≡ (
          if is_foreign c.thread_id (get "threadId" params)
          then ([], c)
          else turn_completed int64_of params c)
  unfolding handle_raw_notification bytes_eq
  dispatch params c = refl

  completion :
      (params : Fields) (c : CodexClient)
      → is_blank (turn_of params) ≡ false
      → is_foreign c.thread_id (get "threadId" params) ≡ false
      → contains_id
          (turn_of params)
          (handle_raw_notification int64_of completed params c).1.completed_turn_ids
        ≡ true
  unfolding turn_completed
  completion params c h own = rw (dispatch params c, own) (settled _ _ _ _ h)

  failed-usage :
      (b : Bool) (why : Bytes) (c : CodexClient)
      → (if b then set_turn_error why c else c).usage ≡ c.usage
  unfolding set_turn_error
  failed-usage b why c = ground arith

  abbrev Ignored : CodexClient → List Effect × CodexClient → Type 0
  Ignored c r = (r.0 ≡ []) × (r.1.usage ≡ c.usage)

  completed_again :
      (params : Fields) (c : CodexClient)
      → is_blank (turn_of params) ≡ false
      → contains_id (turn_of params) c.completed_turn_ids ≡ true
      → ((turn_completed int64_of params c).0 ≡ [])
        × ((turn_completed int64_of params c).1.usage ≡ c.usage)
  unfolding turn_completed
  completed_again params c h k =
      settled_again (turn_of params) _ _ c _ h
        ((failed-Keeps int64_of (turn_of params) _ _ c).ids k) (failed-usage _ _ c)

  either :
      (b : Bool) (c : CodexClient) (r : List Effect × CodexClient)
      → Ignored c r
      → Ignored c (if b then ([], c) else r)
  either true c r h = (refl, refl)
  either false c r h = h

  -- However many lines of the child come between, of any kind: once a turn that has an id has ended by
  -- turn/completed on the client's own thread, another turn/completed with that id ends no turn, sends
  -- no message and counts no tokens.
  pub turn_ends_once :
      (params params2 : Fields) (lines : List (Option Fields)) (c : CodexClient)
      → is_blank (extract_nested_string params ("turn" ∷ "id" ∷ [])) ≡ false
      → extract_nested_string params2 ("turn" ∷ "id" ∷ [])
        ≡ extract_nested_string params ("turn" ∷ "id" ∷ [])
      → is_foreign c.thread_id (get "threadId" params) ≡ false
      → let ended = (handle_raw_notification int64_of (codes "turn/completed") params c).1 in
        let later = (handle_lines int64_of id_of lines ended).1 in
        let again = handle_raw_notification int64_of (codes "turn/completed") params2 later in
        (again.0 ≡ []) × (again.1.usage ≡ later.usage)
  turn_ends_once params params2 lines c h same own =
      let k =
        (lines-Keeps int64_of (turn_of params) id_of lines _).ids (completion params c h own) in
      rw (dispatch params2 _) (either _ _ _ (completed_again params2 _ (rw same h) (rw same k)))

  -- The first error that a turn meets is the one that is kept, whatever lines follow.
  pub first_error_stays :
      (lines : List (Option Fields)) (c : CodexClient)
      → is_blank c.turn_error ≡ false
      → (handle_lines int64_of id_of lines c).1.turn_error ≡ c.turn_error
  first_error_stays lines c h = (lines-Keeps int64_of [] id_of lines c).error h
