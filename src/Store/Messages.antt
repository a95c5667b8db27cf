-- ===== src/Store/Messages.antt =====
-- The messages table: daemon/internal/store/messages.go, queries/messages.sql and migrations/003.
-- Times are unix milliseconds.
pub mod Ascending
pub mod Paging
use meowth.Prelude.{
  ℕ, Bool, false, ◌&&◌, ◌||◌, not, List, [], ◌∷◌, ◌++◌, String, str_eq, leb, ◌==◌, if◌then◌else◌,
  length, take, filter, Bytes, Result, ok, err, ℤ, pos, lt_ℤ,
}
use meowth.Store.Sessions.{Sessions, find, is_some}

-- `EventType.IsValid`, which is the CHECK on the event_type column too.
unfoldable pub event_type_is_valid : String → Bool
event_type_is_valid e =
    str_eq e "session_started"
    || str_eq e "message"
    || str_eq e "usage"
    || str_eq e "error"
    || str_eq e "session_ended"
    || str_eq e "heartbeat"

pub record MessageRow : Type 0 where
  pub session_id : String
  pub seq : ℕ
  pub event_type : String
  pub ts : ℕ
  pub envelope_json : Bytes

abbrev pub Messages : Type 0
Messages = List MessageRow

pub data MessageError : Type 0 where
  session_id_required envelope_json_required : MessageError
  invalid_event_type : String → MessageError
  db_failed : MessageError

-- The primary key of the table.
unfoldable pub has_key : String → ℕ → Messages → Bool
has_key k n [] = false
has_key k n (m ∷ ms) = (str_eq m.session_id k && m.seq == n) || has_key k n ms

-- `AppendMessage`: the driver may fail, the key must be new, and the session must exist.
unfoldable pub append_message :
    Bool → Sessions → MessageRow → Messages → Result MessageError Messages
append_message driver_fails sessions m ms =
    if str_eq m.session_id ""
    then err session_id_required
    else if not (event_type_is_valid m.event_type)
    then err (invalid_event_type m.event_type)
    else if length m.envelope_json == 0
    then err envelope_json_required
    else if driver_fails
        || has_key m.session_id m.seq ms
        || not (is_some (find m.session_id sessions))
    then err db_failed
    else ok (ms ++ m ∷ [])

-- ORDER BY seq, by insertion.
insert_asc : MessageRow → Messages → Messages
insert_asc m [] = m ∷ []
insert_asc m (n ∷ ns) = if leb m.seq n.seq then m ∷ n ∷ ns else n ∷ insert_asc m ns

unfoldable pub order_by_seq : Messages → Messages
unfolding insert_asc
order_by_seq [] = []
order_by_seq (m ∷ ms) = insert_asc m (order_by_seq ms)

-- The rows of one session behind a sequence number, which a client may give below 0.
unfoldable pub is_after : String → ℤ → MessageRow → Bool
is_after k after m = str_eq m.session_id k && lt_ℤ after (pos m.seq)

-- `ListMessagesAfterSeq`.
unfoldable pub list_messages_after_seq :
    Bool → String → ℤ → ℕ → Messages → Result MessageError Messages
unfolding is_after
list_messages_after_seq driver_fails k after limit ms =
    if driver_fails
    then err db_failed
    else ok (take limit (order_by_seq (filter (is_after k after) ms)))

unfoldable pub count_messages_for_session : Bool → String → Messages → Result MessageError ℕ
count_messages_for_session driver_fails k ms =
    if driver_fails then err db_failed else ok (length (filter (λ m. str_eq m.session_id k) ms))
