-- ===== src/Handlers/Exec/Flow/Stranded.antt =====
-- Which rows the exec handler leaves running when it returns (Handlers/Exec/Flow.antt).
use meowth.Prelude.{
  ℕ, ◌≡◌, refl, Bool, true, false, [], ◌∷◌, ◌++◌, Option, none, some, String, str_eq, eq_iff,
  if◌then◌else◌, Bytes, Result, ok, err, arith, pos, ◌&&◌, Bool-cases, inl, inr,
}
use meowth.Store.Sessions.{
  Sessions, Session, SessionError, find, is_running, is_terminal, status_is_valid, status_failed,
  insert_session, update_session_ended, update_where, ended, UpdateSessionEndedParams,
  InsertSessionParams, running_row,
}
use meowth.Problem.{Kind}
use meowth.Store.Messages.{Messages, MessageError}
use meowth.Envelope.{Builder, Envelope, EnvelopeError}
use meowth.Pump.{Config, sessions_or}
use meowth.Handlers.Exec.{ExecError}
use meowth.Handlers.Exec.Flow.{
  ExecRequest, ExecBody, too_large, malformed, trailing, decoded, Factory, made, unknown_type,
  unavailable, broken, ExecIo, Daemon, ExecEnd, refused, unbuilt, unstored, client_gone, pumped,
  is_client_backend_input_error, internal_problem, invalid, fail_row, run_pump, written, stored,
  built, executed, released, inserted, opened, timed, placed, on_body, exec,
}

unfoldable pub runs_in : Option Session → Bool
runs_in none = false
runs_in (some s) = is_running s

-- The row of the session is there, and running.
unfoldable pub runs : String → Sessions → Bool
unfolding runs_in
runs id ss = runs_in (find id ss)

is_there_in : Option Session → Bool
is_there_in none = false
is_there_in (some s) = true

unfoldable pub is_there : String → Sessions → Bool
unfolding is_there_in
is_there id ss = is_there_in (find id ss)

-- Whether a row is left running, by whether the driver fails to end one, and whether the row is there.
unfoldable pub is_stranded : Bool → Bool → ExecEnd → Bool
is_stranded end_fails there (refused status kind detail) = end_fails && there
is_stranded end_fails there unbuilt = true
is_stranded end_fails there unstored = end_fails
is_stranded end_fails there client_gone = true
is_stranded end_fails there (pumped wire r) = false

unfoldable pub is_pumped : ExecEnd → Bool
is_pumped (pumped wire r) = true
is_pumped (refused status kind detail) = false
is_pumped unbuilt = false
is_pumped unstored = false
is_pumped client_gone = false

runs-append :
    (ss : Sessions) (s : Session)
    → find s.id ss ≡ none
    → is_running s ≡ true
    → runs s.id (ss ++ s ∷ []) ≡ true
unfolding runs find
runs-append [] s h r = ground (arith, r, (eq_iff s.id s.id).1 refl)
runs-append (t ∷ ss) s h r = ground (arith, h, runs-append ss s)

insert-runs :
    (b : Bool) (p : InsertSessionParams) (ss : Sessions) (row : Session) (ss' : Sessions)
    → find p.id ss ≡ none
    → insert_session b p ss ≡ ok (row, ss')
    → runs p.id ss' ≡ true
unfolding insert_session is_running
insert-runs b p ss row ss' h e = ground (arith, e, runs-append ss (running_row p) h refl)

runs-ended :
    (p : UpdateSessionEndedParams) (ss : Sessions)
    → str_eq p.status "running" ≡ false
    → runs p.id (update_where p.id (ended p) ss) ≡ false
unfolding runs find update_where is_running
runs-ended p [] h = refl
runs-ended p (s ∷ ss) h = ground (arith, h, runs-ended p ss h)

there-ended :
    (p : UpdateSessionEndedParams) (ss : Sessions)
    → is_there p.id (update_where p.id (ended p) ss) ≡ is_there p.id ss
unfolding is_there find update_where is_running
there-ended p [] = refl
there-ended p (s ∷ ss) = ground (arith, there-ended p ss)

runs_in-there : (o : Option Session) → runs_in o ≡ true → is_there_in o ≡ true
unfolding runs_in is_there_in
runs_in-there none h = cc
runs_in-there (some s) h = refl

runs-there : (id : String) (ss : Sessions) → runs id ss ≡ true → is_there id ss ≡ true
unfolding runs is_there
runs-there id ss h = runs_in-there (find id ss) h

-- The update that ends the row on a failure: the row runs on exactly if the driver fails.
fail_row-runs :
    (io : ExecIo) (id why : String) (ss : Sessions)
    → runs id ss ≡ true
    → (runs id (fail_row io id why ss) ≡ io.end_fails)
      × (is_there id (fail_row io id why ss) ≡ true)
unfolding fail_row sessions_or update_session_ended is_terminal status_is_valid
fail_row-runs io id why ss l =
    let p : UpdateSessionEndedParams = record {
      id = id;
      status = status_failed;
      ended_at = io.failed_at;
      error = why;
      duration_ms = pos 0;
      usage_json = "";
    } in
    let there = runs-there id ss l in
    elim (Bool-cases io.end_fails) [
      | inl f ↦ rw f (l, there)
      | inr f ↦
          (ground (arith, f, runs-ended p ss refl), ground (arith, f, there-ended p ss, there))
    ]

module _ (cfg : Config) (message_error : MessageError → String) (io : ExecIo) where
  -- The row of the session runs exactly at a stranded end, unless the pump had it.
  Accounted : Daemon × ExecEnd → Type 0
  Accounted (d, e) =
      is_pumped e ≡ false
      → runs cfg.session_id d.sessions
        ≡ is_stranded io.end_fails (is_there cfg.session_id d.sessions) e

  Live : Daemon → Type 0
  Live d = runs cfg.session_id d.sessions ≡ true

  Accounted-if :
      (b : Bool) (x y : Daemon × ExecEnd)
      → Accounted x
      → Accounted y
      → Accounted (if b then x else y)
  Accounted-if true x y h k = h
  Accounted-if false x y h k = k

  gone-Accounted :
      (d : Daemon) (ms : Messages) → Live d → Accounted (record d { messages = ms }, client_gone)
  unfolding Accounted Live is_stranded
  gone-Accounted d ms l p = l

  unbuilt-Accounted : (d : Daemon) → Live d → Accounted (d, unbuilt)
  unfolding Accounted Live is_stranded
  unbuilt-Accounted d l p = l

  run_pump-Accounted :
      (line : Bytes) (d : Daemon) → Accounted (run_pump cfg message_error io line d)
  unfolding Accounted run_pump is_pumped
  run_pump-Accounted line d p = cc

  refused-Accounted :
      (d : Daemon) (status : ℕ) (kind : Kind) (detail : String)
      → runs cfg.session_id d.sessions ≡ (io.end_fails && is_there cfg.session_id d.sessions)
      → Accounted (d, refused status kind detail)
  unfolding Accounted is_stranded
  refused-Accounted d status kind detail h p = h

  unstored-Accounted :
      (d : Daemon) (why : String)
      → Live d
      → Accounted (record d { sessions = fail_row io cfg.session_id why d.sessions }, unstored)
  unfolding Accounted Live is_stranded
  unstored-Accounted d why l p = (fail_row-runs io cfg.session_id why d.sessions l).0

  failed_row :
      (d : Daemon) (why : String)
      → Live d
      → runs cfg.session_id (fail_row io cfg.session_id why d.sessions)
        ≡ (io.end_fails && is_there cfg.session_id (fail_row io cfg.session_id why d.sessions))
  unfolding Live
  failed_row d why l =
      let (a, b) = fail_row-runs io cfg.session_id why d.sessions l in rw (a, b) (ground arith)

  failed-Accounted :
      (d : Daemon) (why detail : String) (b : Bool)
      → Live d
      → Accounted (
        record d { sessions = fail_row io cfg.session_id why d.sessions },
        if b then invalid detail else internal_problem,
      )
  unfolding invalid internal_problem
  failed-Accounted d why detail true l = refused-Accounted _ _ _ _ (failed_row d why l)
  failed-Accounted d why detail false l = refused-Accounted _ _ _ _ (failed_row d why l)

  written-Accounted :
      (line : Bytes) (r : Result MessageError Messages) (d : Daemon)
      → Live d
      → Accounted (written cfg message_error io line r d)
  unfolding written
  written-Accounted line (err e) d l = unstored-Accounted d _ l
  written-Accounted line (ok ms) d l =
      Accounted-if io.write_fails _ _ (gone-Accounted d ms l)
        (run_pump-Accounted line (record d { messages = ms }))

  stored-Accounted :
      (env : Envelope) (r : Result EnvelopeError Bytes) (d : Daemon)
      → Live d
      → Accounted (stored cfg message_error io env r d)
  unfolding stored
  stored-Accounted env (err e) d l = unbuilt-Accounted d l
  stored-Accounted env (ok line) d l = written-Accounted line _ d l

  built-Accounted :
      (b : Builder × Result EnvelopeError Envelope) (d : Daemon)
      → Live d
      → Accounted (built cfg message_error io b d)
  unfolding built
  built-Accounted (b, err e) d l = unbuilt-Accounted d l
  built-Accounted (b, ok env) d l = stored-Accounted env _ d l

  executed-Accounted :
      (t : String) (o : Option String) (d : Daemon)
      → Live d
      → Accounted (executed cfg message_error io t o d)
  unfolding executed
  executed-Accounted t (some why) d l = failed-Accounted d _ _ (is_client_backend_input_error why) l
  executed-Accounted t none d l = search built-Accounted

  -- With the rows as they were, in which the session is not.
  module _ (t : String) (d : Daemon) (fresh : find cfg.session_id d.sessions ≡ none) where
    none_runs :
        runs cfg.session_id d.sessions ≡ (io.end_fails && is_there cfg.session_id d.sessions)
    unfolding runs is_there
    none_runs = rw fresh (unfold runs_in is_there_in in ground arith)

    early : (status : ℕ) (kind : Kind) (detail : String) → Accounted (d, refused status kind detail)
    early status kind detail = refused-Accounted d status kind detail none_runs

    internal-Accounted : Accounted (d, internal_problem)
    unfolding internal_problem
    internal-Accounted = early _ _ _

    invalid-Accounted : (why : String) → Accounted (d, invalid why)
    unfolding invalid
    invalid-Accounted why = early _ _ _

    released-Accounted :
        (r : Daemon × ExecEnd) → Accounted r → Accounted (released cfg message_error io r)
    unfolding released Accounted
    released-Accounted r h = h

    inserted-Accounted :
        (r : Result SessionError (Session × Sessions))
        → ((row : Session) (ss : Sessions) → r ≡ ok (row, ss) → runs cfg.session_id ss ≡ true)
        → Accounted (inserted cfg message_error io t r d)
    unfolding inserted Live
    inserted-Accounted (err e) h = internal-Accounted
    inserted-Accounted (ok (row, ss)) h =
        released-Accounted _ (executed-Accounted t io.execute_error _ (h row ss refl))

    opened-Accounted :
        (req : ExecRequest) (f : Factory) → Accounted (opened cfg message_error io t req f d)
    unfolding opened
    opened-Accounted req (unknown_type why) = early _ _ _
    opened-Accounted req (unavailable why) = early _ _ _
    opened-Accounted req broken = internal-Accounted
    opened-Accounted req made =
        Accounted-if _ _ _ internal-Accounted (
          inserted-Accounted _
            (λ row ss e. insert-runs io.insert_fails _ d.sessions row ss fresh e))

    timed-Accounted :
        (req : ExecRequest) (r : Result ExecError (Unit {0}))
        → Accounted (timed cfg message_error io t req r d)
    unfolding timed
    timed-Accounted req (err e) = invalid-Accounted _
    timed-Accounted req (ok u) = opened-Accounted req io.factory

    placed-Accounted :
        (req : ExecRequest) (o : Option String) → Accounted (placed cfg message_error io t req o d)
    unfolding placed
    placed-Accounted req (some why) = invalid-Accounted why
    placed-Accounted req none = timed-Accounted req _

    body-Accounted : (b : ExecBody) → Accounted (on_body cfg message_error io t b d)
    unfolding on_body
    body-Accounted too_large = early _ _ _
    body-Accounted malformed = invalid-Accounted _
    body-Accounted trailing = invalid-Accounted _
    body-Accounted (decoded req) = Accounted-if _ _ _ (invalid-Accounted _) (placed-Accounted req _)

    exec-Accounted : (quoted : String) → Accounted (exec cfg message_error io t quoted d)
    unfolding exec
    exec-Accounted quoted = Accounted-if _ _ _ (body-Accounted io.body) (early _ _ _)

-- Unless the pump has run: when the handler returns, the row of a new session is there and running
-- exactly if the line of session_started could not be built or encoded, or the client was gone when it
-- was written, or the driver failed to end the row, which it is asked to do once the row is there and the
-- backend does not start or session_started cannot be stored. So a request that is answered with a problem
-- leaves a running row exactly if its row was inserted and the driver failed to end it.
pub stranded_iff :
    (cfg : Config) (message_error : MessageError → String) (io : ExecIo) (t quoted : String)
    (d : Daemon)
    → find cfg.session_id d.sessions ≡ none
    → is_pumped (exec cfg message_error io t quoted d).1 ≡ false
    → runs cfg.session_id (exec cfg message_error io t quoted d).0.sessions
      ≡ is_stranded io.end_fails
          (is_there cfg.session_id (exec cfg message_error io t quoted d).0.sessions)
          (exec cfg message_error io t quoted d).1
stranded_iff cfg message_error io t quoted d fresh p =
    unfold Accounted in exec-Accounted cfg message_error io t d fresh quoted p
