-- ===== src/Handlers/Sessions/Tests.antt =====
-- Requests to the session endpoints (Handlers/Sessions.antt).
use meowth.Prelude.{
  ℕ, ◌≡◌, refl, true, false, [], ◌∷◌, none, some, Bytes, codes, bytes_eq, pos, negsuc, contains,
  lookup, ok, arith,
}
use meowth.Store.Sessions.{Session, find, get_session, is_terminal}
use meowth.Store.Messages.{MessageRow, Messages, has_key, list_messages_after_seq, order_by_seq}
use meowth.Store.Messages.Ascending.{IsKeyed}
use meowth.CancelRegistry.{Registry, cancel}
use meowth.CancelRegistry.Firing.{cancel_all_op, run}
use meowth.Handlers.Queries.{parse_int, parse_limit, parse_types_filter}
use meowth.Handlers.Sessions.{MessagesQuery, messages, list_messages, page_of, cancel_session}
use meowth.Handlers.Sessions.Pages.{
  IsPageOf, Visit, Starts, Sized, the_page, Walk, Answered, pages, limits, pages-IsPageOf,
}
use meowth.Handlers.Sessions.Cancels.{is_accepted, accepted_once}

abbrev session : Session
session = record {
  id = "s1";
  backend_type = "claude";
  backend_session_id = [];
  status = "running";
  started_at = 1;
  ended_at = none;
  thread_name = "";
  model = "";
  daemon_pid = 1;
  error = "";
  duration_ms = pos 0;
  usage_json = "";
}

abbrev row : ℕ → Bytes → MessageRow
row n line = record {
  session_id = "s1";
  seq = n;
  event_type = "message";
  ts = 5;
  envelope_json = line;
}

-- The rows stand in the table out of order.
abbrev rows : Messages
rows = row 2 (codes "b") ∷ row 1 (codes "a") ∷ row 3 (codes "c") ∷ []

rows-IsKeyed : IsKeyed rows
unfolding has_key
rows-IsKeyed = (refl, (refl, (refl, tt)))

abbrev two_after_none : MessagesQuery
two_after_none = record { follow = []; after_seq = []; limit = codes "2"; types = [] }

first_two :
    list_messages false false (session ∷ []) rows "s1" two_after_none
    ≡ messages
        (record { events = codes "a" ∷ codes "b" ∷ []; next_after_seq = pos 2; has_more = true })
unfolding list_messages bytes_eq get_session find parse_limit parse_int list_messages_after_seq
    page_of order_by_seq parse_types_filter
first_two = refl

abbrev two_after_two : MessagesQuery
two_after_two = record { follow = []; after_seq = codes "2"; limit = codes "2"; types = [] }

abbrev first : Visit
first = record { query = two_after_none; limit = 2 }

abbrev second : Visit
second = record { query = two_after_two; limit = 2 }

two_pages : Walk (session ∷ []) rows "s1" [] (negsuc 0) (first ∷ second ∷ [])
unfolding Walk Starts Sized the_page list_messages bytes_eq get_session find parse_limit parse_int
    list_messages_after_seq page_of order_by_seq parse_types_filter
two_pages = (
  refl,
  refl,
  refl,
  omega arith,
  omega arith,
  refl,
  (refl, refl, refl, omega arith, omega arith, refl, tt),
)

found : get_session false "s1" (session ∷ []) ≡ ok session
unfolding get_session find
found = refl

pages-IsPageOf_example :
    Answered (session ∷ []) rows "s1" (first ∷ second ∷ [])
    × IsPageOf "s1" rows []
        (negsuc 0)
        (limits (session ∷ []) rows "s1" first (second ∷ []))
        (pages (session ∷ []) rows "s1" first (second ∷ []))
pages-IsPageOf_example =
    pages-IsPageOf (session ∷ []) rows "s1" session [] (negsuc 0) first (second ∷ []) found
      rows-IsKeyed two_pages

negative_number : parse_int (codes "-12") ≡ some (negsuc 11)
unfolding parse_int
negative_number = refl

two_hundred : parse_limit 50 1 200 (codes "200") ≡ ok 200
unfolding parse_limit parse_int
two_hundred = refl

abbrev registry : Registry
registry = record { cancels = ("s1", 1) ∷ []; requested = []; shutdown_ids = [] }

first_cancel : is_accepted (cancel_session false (session ∷ []) registry "s1").1 ≡ true
unfolding cancel_session cancel get_session find is_terminal contains lookup
first_cancel = refl

accepted_once_example :
    is_accepted
      (cancel_session false
        (session ∷ [])
        (run (cancel_all_op ∷ []) (cancel_session false (session ∷ []) registry "s1").0)
        "s1").1
    ≡ false
accepted_once_example =
    accepted_once "s1" false (session ∷ []) registry (cancel_all_op ∷ []) false (session ∷ [])
      first_cancel (tt, tt)
