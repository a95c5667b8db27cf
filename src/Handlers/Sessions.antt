-- ===== src/Handlers/Sessions.antt =====
-- The session endpoints: daemon/internal/server/handlers/sessions.go, over the store of Store/ and
-- the registry of CancelRegistry.antt.
pub mod Pages
pub mod Cancels
pub mod Tests
use meowth.Prelude.{
  ℕ, ◌+◌, Bool, true, false, ◌&&◌, ◌||◌, not, List, [], ◌∷◌, Option, none, some, String, ltb, ◌==◌,
  if◌then◌else◌, length, take, map, filter, Bytes, codes, bytes_eq, Result, ok, err, ℤ, pos, negsuc,
}
use meowth.Store.Sessions.{
  Session, Sessions, SessionError, session_not_found, is_terminal, get_session, list_sessions,
  ListSessionsParams,
}
use meowth.Store.Messages.{MessageRow, Messages, MessageError, list_messages_after_seq}
use meowth.Store.Messages.Paging.{last_seq}
use meowth.CancelRegistry.{Registry, CancelOutcome, fired, already_requested, unknown, cancel}
use meowth.Handlers.Queries.{
  QueryError, limit_not_int, limit_out_of_range, unknown_status, parse_int, parse_limit,
  parse_status_filter, parse_types_filter,
}

-- The `before` parameter, as `time.Parse` reads it.
pub data Before : Type 0 where
  not_given malformed : Before
  at : ℕ → Before

pub data Detail : Type 0 where
  bad_query : QueryError → Detail
  bad_before bad_after_seq follow_not_implemented : Detail

pub record MessagePage : Type 0 where
  pub events : List Bytes
  pub next_after_seq : ℤ
  pub has_more : Bool

pub data Response : Type 0 where
  sessions : Sessions → Response
  session : Session → Response
  messages : MessagePage → Response
  -- 202 with "cancelled", and 200 with "already_terminated"
  accepted terminated : Response
  bad_request : Detail → Response
  not_found internal : Response

pub record ListQuery : Type 0 where
  pub status : Bytes
  pub limit : Bytes
  pub before : Before

before_of : Before → Result Detail (Option ℕ)
before_of not_given = ok none
before_of malformed = err bad_before
before_of (at t) = ok (some t)

listed : Result SessionError Sessions → Response
listed (ok ss) = sessions ss
listed (err e) = internal

list_with : Bool → Sessions → List String → ℕ → Result Detail (Option ℕ) → Response
unfolding listed
list_with fails ss statuses limit (err d) = bad_request d
list_with fails ss statuses limit (ok before) =
    listed (list_sessions fails (record { statuses = statuses; limit = limit; before = before }) ss)

list_limited : Bool → Sessions → Before → List String → Result QueryError ℕ → Response
unfolding list_with before_of
list_limited fails ss before statuses (err e) = bad_request (bad_query e)
list_limited fails ss before statuses (ok limit) =
    list_with fails ss statuses limit (before_of before)

list_filtered : Bool → Sessions → ListQuery → Result QueryError (List String) → Response
unfolding list_limited
list_filtered fails ss q (err e) = bad_request (bad_query e)
list_filtered fails ss q (ok statuses) =
    list_limited fails ss q.before statuses (parse_limit 50 1 200 q.limit)

-- `List`
unfoldable pub list : Bool → Sessions → ListQuery → Response
unfolding list_filtered
list fails ss q = list_filtered fails ss q (parse_status_filter q.status)

refused : SessionError → Response
refused session_not_found = not_found
refused _ = internal

shown : Result SessionError Session → Response
unfolding refused
shown (ok s) = session s
shown (err e) = refused e

-- `Get`
unfoldable pub get : Bool → Sessions → String → Response
unfolding shown
get fails ss id = shown (get_session fails id ss)

pub record MessagesQuery : Type 0 where
  pub follow : Bytes
  pub after_seq : Bytes
  pub limit : Bytes
  pub types : Bytes

-- The row's type is among those asked for, if any are.
unfoldable pub is_wanted : List Bytes → MessageRow → Bool
is_wanted [] m = true
is_wanted (t ∷ []) m = bytes_eq (codes m.event_type) t
is_wanted (t ∷ u ∷ ts) m = bytes_eq (codes m.event_type) t || is_wanted (u ∷ ts) m

-- The page out of the rows of the query, which asked for one row more.
unfoldable pub page_of : List Bytes → ℤ → ℕ → Messages → MessagePage
unfolding is_wanted last_seq
page_of types after limit rows =
    let kept = if ltb limit (length rows) then take limit rows else rows in
    record {
      events = map (λ (m : MessageRow). m.envelope_json) (filter (is_wanted types) kept);
      next_after_seq = last_seq after kept;
      has_more = ltb limit (length rows);
    }

paged : List Bytes → ℤ → ℕ → Result MessageError Messages → Response
paged types after limit (ok rows) = messages (page_of types after limit rows)
paged types after limit (err e) = internal

after_of : Bytes → Option ℤ
after_of [] = some (negsuc 0)
after_of (c ∷ s) = parse_int (c ∷ s)

messages_limited : Bool → Messages → String → Bytes → ℤ → Result QueryError ℕ → Response
unfolding paged
messages_limited fails ms id types after (err e) = bad_request (bad_query e)
messages_limited fails ms id types after (ok limit) =
    paged (parse_types_filter types) after limit
      (list_messages_after_seq fails id after (limit + 1) ms)

messages_after : Bool → Messages → String → MessagesQuery → Option ℤ → Response
unfolding messages_limited
messages_after fails ms id q none = bad_request bad_after_seq
messages_after fails ms id q (some after) =
    messages_limited fails ms id q.types after (parse_limit 1000 1 10000 q.limit)

messages_found : Bool → Messages → String → MessagesQuery → Result SessionError Session → Response
unfolding messages_after after_of refused
messages_found fails ms id q (err e) = refused e
messages_found fails ms id q (ok s) = messages_after fails ms id q (after_of q.after_seq)

-- `Messages`; the two Booleans are the driver's verdicts on the session and on the rows.
unfoldable pub list_messages : Bool → Bool → Sessions → Messages → String → MessagesQuery → Response
unfolding messages_found
list_messages get_fails list_fails ss ms id q =
    if bytes_eq q.follow (codes "true")
    then bad_request follow_not_implemented
    else messages_found list_fails ms id q (get_session get_fails id ss)

answer : CancelOutcome → Response
answer fired = accepted
answer already_requested = terminated
answer unknown = terminated

answered : Registry × CancelOutcome × List ℕ → Registry × Response × List ℕ
unfolding answer
answered (r, o, fs) = (r, answer o, fs)

cancel_found_session :
    Registry → String → Result SessionError Session → Registry × Response × List ℕ
unfolding answered refused
cancel_found_session r id (err e) = (r, refused e, [])
cancel_found_session r id (ok s) =
    if is_terminal s.status then (r, terminated, []) else answered (cancel id r)

-- `CancelHandler`, wired to the registry: what it answers and which functions fire.
unfoldable pub cancel_session : Bool → Sessions → Registry → String → Registry × Response × List ℕ
unfolding cancel_found_session
cancel_session fails ss r id = cancel_found_session r id (get_session fails id ss)
