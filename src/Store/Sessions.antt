-- ===== src/Store/Sessions.antt =====
-- The sessions table: daemon/internal/store/sessions.go, queries/sessions.sql and migrations/002.
-- Times are unix seconds, as the table stores them.
pub mod Lifecycle
pub mod Cleanup
pub mod Listing
use meowth.Prelude.{
  ℕ, zero, Bool, true, false, ◌&&◌, ◌||◌, not, List, [], ◌∷◌, ◌++◌, Option, none, some, String,
  str_eq, ltb, ◌==◌, if◌then◌else◌, length, take, filter, Result, ok, err, map, order_desc, Bytes,
  ℤ, pos,
}

-- The constants of `SessionStatus`.
abbrev pub status_running : String
status_running = "running"

abbrev pub status_failed : String
status_failed = "failed"

abbrev pub status_aborted : String
status_aborted = "aborted"

-- `IsTerminal`.
unfoldable pub is_terminal : String → Bool
is_terminal s = not (str_eq s status_running)

-- The CHECK on the status column.
unfoldable pub status_is_valid : String → Bool
status_is_valid s =
    str_eq s "running"
    || str_eq s "completed"
    || str_eq s "failed"
    || str_eq s "aborted"
    || str_eq s "timeout"
    || str_eq s "cancelled"

-- `BackendType.IsValid`, which is the CHECK on the backend_type column too.
unfoldable pub backend_is_valid : String → Bool
backend_is_valid t =
    str_eq t "claude"
    || str_eq t "copilot"
    || str_eq t "codex"
    || str_eq t "hermes"
    || str_eq t "pi"

pub record Session : Type 0 where
  pub id : String
  pub backend_type : String
  pub backend_session_id : Bytes
  pub status : String
  pub started_at : ℕ
  pub ended_at : Option ℕ
  pub thread_name : String
  pub model : String
  pub daemon_pid : ℕ
  pub error : String
  pub duration_ms : ℤ
  pub usage_json : String

abbrev pub Sessions : Type 0
Sessions = List Session

pub data SessionError : Type 0 where
  invalid_backend_type : String → SessionError
  id_required : SessionError
  not_terminal : String → SessionError
  session_not_found : SessionError
  db_failed : SessionError

pub record InsertSessionParams : Type 0 where
  pub id : String
  pub backend_type : String
  pub backend_session_id : Bytes
  pub thread_name : String
  pub model : String
  pub daemon_pid : ℕ
  pub started_at : ℕ

unfoldable pub find : String → Sessions → Option Session
find k [] = none
find k (s ∷ ss) = if str_eq s.id k then some s else find k ss

abbrev pub is_some : Option Session → Bool
is_some none = false
is_some (some s) = true

abbrev pub running_row : InsertSessionParams → Session
running_row p = record {
  id = p.id;
  backend_type = p.backend_type;
  backend_session_id = p.backend_session_id;
  status = status_running;
  started_at = p.started_at;
  ended_at = none;
  thread_name = p.thread_name;
  model = p.model;
  daemon_pid = p.daemon_pid;
  error = "";
  duration_ms = pos 0;
  usage_json = "";
}

-- `InsertSession`; the id is the primary key.
unfoldable pub insert_session :
    Bool → InsertSessionParams → Sessions → Result SessionError (Session × Sessions)
insert_session driver_fails p ss =
    if not (backend_is_valid p.backend_type)
    then err (invalid_backend_type p.backend_type)
    else if str_eq p.id ""
    then err id_required
    else if driver_fails || is_some (find p.id ss)
    then err db_failed
    else ok (running_row p, ss ++ running_row p ∷ [])

-- UPDATE ... WHERE id = ?
unfoldable pub update_where : String → (Session → Session) → Sessions → Sessions
update_where k change ss = map (λ (s : Session). if str_eq s.id k then change s else s) ss

unfoldable pub update_session_backend_session_id :
    Bool → String → Bytes → Sessions → Result SessionError Sessions
unfolding update_where
update_session_backend_session_id driver_fails id backend_id ss =
    if driver_fails
    then err db_failed
    else ok (update_where id (λ s. record s { backend_session_id = backend_id }) ss)

pub record UpdateSessionEndedParams : Type 0 where
  pub id : String
  pub status : String
  pub ended_at : ℕ
  pub error : String
  pub duration_ms : ℤ
  pub usage_json : String

abbrev pub ended : UpdateSessionEndedParams → Session → Session
ended p s = record s {
  status = p.status;
  ended_at = some p.ended_at;
  error = p.error;
  duration_ms = p.duration_ms;
  usage_json = p.usage_json;
}

-- `UpdateSessionEnded`: a status outside the CHECK makes the statement fail if a row matches.
unfoldable pub update_session_ended :
    Bool → UpdateSessionEndedParams → Sessions → Result SessionError Sessions
unfolding update_where
update_session_ended driver_fails p ss =
    if not (is_terminal p.status)
    then err (not_terminal p.status)
    else if driver_fails || (is_some (find p.id ss) && not (status_is_valid p.status))
    then err db_failed
    else ok (update_where p.id (ended p) ss)

or_not_found : Option Session → Result SessionError Session
or_not_found none = err session_not_found
or_not_found (some s) = ok s

unfoldable pub get_session : Bool → String → Sessions → Result SessionError Session
unfolding or_not_found
get_session driver_fails id ss = if driver_fails then err db_failed else or_not_found (find id ss)

pub record ListSessionsParams : Type 0 where
  pub statuses : List String
  pub limit : ℕ
  -- `none` is the zero time
  pub before : Option ℕ

one_of : String → List String → Bool
one_of s [] = false
one_of s (t ∷ ts) = str_eq s t || one_of s ts

page : ℕ → Sessions → Sessions
page limit ss = take limit (order_desc (λ (s : Session). s.started_at) ss)

-- The four queries of `ListSessions`, chosen by the filters that are there.
choose_query : List String → Option ℕ → ℕ → Sessions → Sessions
unfolding one_of page
choose_query [] none limit ss = page limit ss
choose_query [] (some b) limit ss = page limit (filter (λ s. ltb s.started_at b) ss)
choose_query (t ∷ ts) none limit ss = page limit (filter (λ s. one_of s.status (t ∷ ts)) ss)
choose_query (t ∷ ts) (some b) limit ss =
    page limit (filter (λ s. one_of s.status (t ∷ ts) && ltb s.started_at b) ss)

unfoldable pub list_sessions : Bool → ListSessionsParams → Sessions → Result SessionError Sessions
unfolding choose_query
list_sessions driver_fails p ss =
    if driver_fails then err db_failed else ok (choose_query p.statuses p.before p.limit ss)

unfoldable pub is_running : Session → Bool
is_running s = str_eq s.status status_running

abbrev pub aborted_row : ℕ → Session → Session
aborted_row now s = record s {
  status = status_aborted;
  ended_at = some now;
  error = if str_eq s.error "" then "daemon restarted" else s.error;
}

-- `MarkRunningSessionsAborted`: the startup cleanup; the count is taken before the update.
unfoldable pub mark_running_sessions_aborted :
    Bool → Bool → ℕ → Sessions → Result SessionError (ℕ × Sessions)
unfolding is_running
mark_running_sessions_aborted count_fails update_fails now ss =
    let n = length (filter is_running ss) in
    if count_fails
    then err db_failed
    else if n == 0
    then ok (0, ss)
    else if update_fails
    then err db_failed
    else ok (n, map (λ (s : Session). if is_running s then aborted_row now s else s) ss)
