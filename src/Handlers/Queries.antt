-- ===== src/Handlers/Queries.antt =====
-- The query parameters of daemon/internal/server/handlers/sessions.go: the parsers at its end, with
-- the parts of strconv and strings that they use.
use meowth.Prelude.{
  ℕ, zero, suc, ◌+◌, ◌-◌, ◌*◌, ◌^◌, ◌≤◌, ◌≡◌, Bool, ◌&&◌, ◌||◌, List, [], ◌∷◌, Option, none, some,
  String, leb, ltb, ◌==◌, if◌then◌else◌, map, filter, Bytes, codes, bytes_eq, trim_space, Result,
  ok, err, ℤ, pos, negsuc, arith, ap, sym,
}

-- `strconv.ParseInt(s, 10, 64)`, and `strconv.Atoi` on 64 bits: an optional sign, and digits.
digits : ℕ → Bytes → Option ℕ
digits acc [] = some acc
digits acc (c ∷ s) =
    let rest = digits (acc * 10 + (c - b'0')) s in if leb b'0' c && leb c b'9' then rest else none

magnitude : Bytes → Option ℕ
unfolding digits
magnitude [] = none
magnitude (c ∷ s) = digits 0 (c ∷ s)

in_range : Option ℕ → Option ℤ
in_range none = none
in_range (some n) = if ltb n (2 ^ 63) then some (pos n) else none

negated : ℕ → ℤ
negated zero = pos 0
negated (suc n) = negsuc n

in_range_below : Option ℕ → Option ℤ
unfolding negated
in_range_below none = none
in_range_below (some n) = if leb n (2 ^ 63) then some (negated n) else none

unfoldable pub parse_int : Bytes → Option ℤ
unfolding magnitude in_range in_range_below
parse_int [] = none
parse_int (c ∷ s) =
    if c == b'-'
    then in_range_below (magnitude s)
    else if c == b'+'
    then in_range (magnitude s)
    else in_range (magnitude (c ∷ s))

pub data QueryError : Type 0 where
  limit_not_int limit_out_of_range : QueryError
  unknown_status : Bytes → QueryError

is_within : ℕ → ℕ → Option ℤ → Result QueryError ℕ
is_within lo hi none = err limit_not_int
is_within lo hi (some (negsuc n)) = err limit_out_of_range
is_within lo hi (some (pos n)) = if ltb n lo || ltb hi n then err limit_out_of_range else ok n

-- `parseLimit`, with bounds that are not negative.
unfoldable pub parse_limit : ℕ → ℕ → ℕ → Bytes → Result QueryError ℕ
unfolding is_within
parse_limit default lo hi [] = ok default
parse_limit default lo hi (c ∷ raw) = is_within lo hi (parse_int (c ∷ raw))

-- `strings.Split(s, ",")`.
prepend : ℕ → List Bytes → List Bytes
prepend c [] = (c ∷ []) ∷ []
prepend c (p ∷ ps) = (c ∷ p) ∷ ps

unfoldable pub split_commas : Bytes → List Bytes
unfolding prepend
split_commas [] = [] ∷ []
split_commas (c ∷ s) = let rest = split_commas s in if c == b',' then [] ∷ rest else prepend c rest

-- One of the six statuses, as the column has it.
status_named : Bytes → Option String
status_named t =
    if bytes_eq t (codes "running")
    then some "running"
    else if bytes_eq t (codes "completed")
    then some "completed"
    else if bytes_eq t (codes "failed")
    then some "failed"
    else if bytes_eq t (codes "aborted")
    then some "aborted"
    else if bytes_eq t (codes "timeout")
    then some "timeout"
    else if bytes_eq t (codes "cancelled")
    then some "cancelled"
    else none

add_status :
    Bytes → Option String → Result QueryError (List String) → Result QueryError (List String)
add_status p none later = err (unknown_status p)
add_status p (some s) (ok ss) = ok (s ∷ ss)
add_status p (some s) (err e) = err e

statuses_of : List Bytes → Result QueryError (List String)
unfolding status_named add_status
statuses_of [] = ok []
statuses_of (p ∷ ps) = add_status (trim_space p) (status_named (trim_space p)) (statuses_of ps)

-- `parseStatusFilter`
unfoldable pub parse_status_filter : Bytes → Result QueryError (List String)
unfolding statuses_of
parse_status_filter [] = ok []
parse_status_filter (c ∷ raw) = statuses_of (split_commas (c ∷ raw))

names_event_type : Bytes → Bool
names_event_type t =
    bytes_eq t (codes "session_started")
    || bytes_eq t (codes "message")
    || bytes_eq t (codes "usage")
    || bytes_eq t (codes "error")
    || bytes_eq t (codes "session_ended")
    || bytes_eq t (codes "heartbeat")

-- `parseTypesFilter`: what is no event type is left out.
unfoldable pub parse_types_filter : Bytes → List Bytes
unfolding names_event_type
parse_types_filter [] = []
parse_types_filter (c ∷ raw) = filter names_event_type (map trim_space (split_commas (c ∷ raw)))

-- Without a text the limit is the default.
pub parse_limit-default : (default lo hi n : ℕ) → n ≡ default → parse_limit default lo hi [] ≡ ok n
unfolding parse_limit
parse_limit-default default lo hi n h = ap ok (sym h)

-- A number within the bounds is the limit.
pub parse_limit-given :
    (default lo hi n c : ℕ) (raw : Bytes)
    → lo ≤ n
    → n ≤ hi
    → parse_int (c ∷ raw) ≡ some (pos n)
    → parse_limit default lo hi (c ∷ raw) ≡ ok n
unfolding parse_limit is_within
parse_limit-given default lo hi n c raw low high h = rw h (ground (arith, low, high))
