-- ===== src/Handlers/Sessions/Pages.antt =====
-- The pages of GET /v1/sessions/{id}/messages (Handlers/Sessions.antt).
use meowth.Prelude.{
  pos, ◌||◌, ℕ, zero, suc, ◌+◌, ◌≤◌, ◌≡◌, refl, ◌++◌, negsuc, sym, ap, ◌∙◌, Bool, true, false, List,
  [], ◌∷◌, some, String, ltb, if◌then◌else◌, length, length-take, length-drop, take, drop, map,
  filter, Bytes, codes, bytes_eq, ok, ℤ, arith, Bool-cases, inl, inr,
}
use native.Mathlib.Numerals.{unary_clauses}
use meowth.Store.Sessions.{Session, Sessions, get_session}
use meowth.Store.Messages.{MessageRow, Messages, list_messages_after_seq}
use meowth.Store.Messages.Ascending.{IsKeyed, is_above}
use meowth.Store.Messages.Paging.{rows_after, rows_after-eq, session_order, rows_after-next}
use meowth.Handlers.Queries.{
  parse_int, parse_limit, parse_limit-default, parse_limit-given, parse_types_filter,
}
use meowth.Handlers.Sessions.{
  MessagePage, MessagesQuery, Response, messages, is_wanted, page_of, messages_limited,
  messages_after, messages_found, after_of, list_messages,
}

-- The type of the row is one of those.
abbrev pub is_named : List Bytes → MessageRow → Bool
is_named [] m = false
is_named (t ∷ ts) m = bytes_eq (codes m.event_type) t || is_named ts m

-- No types are asked for, or the row's type is one of them.
abbrev pub asks_for : List Bytes → MessageRow → Bool
asks_for [] m = true
asks_for (t ∷ ts) m = is_named (t ∷ ts) m

-- The lines of those rows that are asked for.
abbrev pub events_of : List Bytes → Messages → List Bytes
events_of types ms = map (λ (m : MessageRow). m.envelope_json) (filter (asks_for types) ms)

-- The rows of the session above the number `a`, in order.
abbrev pub rows_above : String → ℤ → Messages → Messages
rows_above k a ms = filter (is_above a) (session_order k ms)

-- The page of `n` rows behind `a`, filtered by `types`: it says truly whether more rows follow, and
-- the rows behind its number are those that it leaves out.
pub record IsPageOf (k : String) (ms : Messages) (types : List Bytes) (a : ℤ) (n : ℕ)
    (p : MessagePage) : Type 0 where
  pub events : p.events ≡ events_of types (take n (rows_above k a ms))
  pub more : p.has_more ≡ ltb n (length (rows_above k a ms))
  pub next : rows_above k p.next_after_seq ms ≡ drop n (rows_above k a ms)

take-take : (n : ℕ) (ms : Messages) → take n (take (n + 1) ms) ≡ take n ms
take-take zero ms = refl
take-take (suc n) [] =
    ap (λ i. take (suc n) (take i [])) {x = suc n + 1} {y = suc (n + 1)} (omega arith)
take-take (suc n) (m ∷ ms) =
    ap (λ i. take (suc n) (take i (m ∷ ms))) {x = suc n + 1} {y = suc (n + 1)} (omega arith)
    ∙ ap (λ l. m ∷ l) (take-take n ms)

take-all : (n : ℕ) (ms : Messages) → length ms ≤ n → take n ms ≡ ms
take-all zero [] h = refl
take-all zero (m ∷ ms) h = absurd (omega arith)
take-all (suc n) [] h = refl
take-all (suc n) (m ∷ ms) h = ap (λ l. m ∷ l) (take-all n ms (omega arith))

kept_few : (n : ℕ) (ms : Messages) → ltb n (length (take (n + 1) ms)) ≡ false → length ms ≤ n
kept_few n ms h = ground (arith, h, length-take (n + 1) ms)

-- The handler cuts the rows of the query, one more than the limit, to the first `n`.
kept-eq :
    (n : ℕ) (ms : Messages)
    → (if ltb n (length (take (n + 1) ms)) then take n (take (n + 1) ms) else take (n + 1) ms)
      ≡ take n ms
kept-eq n ms = elim (Bool-cases (ltb n (length (take (n + 1) ms)))) [
  | inl more ↦ rw more (take-take n ms)
  | inr last ↦ rw last (
      let few = kept_few n ms last in
      take-all (n + 1) ms (omega (arith, few)) ∙ sym (take-all n ms few))
]

named-wanted :
    (t : Bytes) (ts : List Bytes) (m : MessageRow) → is_wanted (t ∷ ts) m ≡ is_named (t ∷ ts) m
unfolding is_wanted
named-wanted t [] m = ground arith
named-wanted t (u ∷ ts) m = ground (arith, named-wanted u ts m)

wanted : (types : List Bytes) (m : MessageRow) → is_wanted types m ≡ asks_for types m
unfolding is_wanted
wanted [] m = refl
wanted (t ∷ ts) m = named-wanted t ts m

filter-wanted :
    (types : List Bytes) (ms : Messages) → filter (is_wanted types) ms ≡ filter (asks_for types) ms
filter-wanted types [] = refl
filter-wanted types (m ∷ ms) = ground (arith, wanted types m, filter-wanted types ms)

page_of-IsPageOf :
    (k : String) (ms : Messages) (types : List Bytes) (a : ℤ) (n : ℕ)
    → IsKeyed ms
    → IsPageOf k ms types a n (page_of types a n (take (n + 1) (rows_after k a ms)))
unfolding page_of
page_of-IsPageOf k ms types a n h =
    let r = rows_after k a ms in
    let above = rows_after-eq k a ms h in
    rw (kept-eq n r) (record {
      events =
          ap (λ l. map (λ (m : MessageRow). m.envelope_json) l) (filter-wanted types (take n r))
          ∙ ap (λ l. events_of types (take n l)) above;
      more =
          let cut : ltb n (length (take (n + 1) r)) ≡ ltb n (length r) =
            ground (arith, length-take (n + 1) r) in
          cut ∙ ap (λ l. ltb n (length l)) above;
      next = sym (rows_after-eq k _ ms h) ∙ rows_after-next k a n ms h ∙ ap (λ l. drop n l) above;
    })

take-+ : (n m : ℕ) (ms : Messages) → take (n + m) ms ≡ take n ms ++ take m (drop n ms)
take-+ zero m ms = ap (λ i. take i ms) {x = 0 + m} {y = m} (omega arith)
take-+ (suc n) zero [] = simp unary_clauses refl
take-+ (suc n) (suc m) [] = simp unary_clauses refl
take-+ (suc n) m (x ∷ ms) =
    ap (λ i. take i (x ∷ ms)) {x = suc n + m} {y = suc (n + m)} (omega arith)
    ∙ ap (λ l. x ∷ l) (take-+ n m ms)

drop-+ : (n m : ℕ) (ms : Messages) → drop m (drop n ms) ≡ drop (n + m) ms
drop-+ zero m ms = ap (λ i. drop i ms) {x = m} {y = 0 + m} (omega arith)
drop-+ (suc n) zero [] = simp unary_clauses refl
drop-+ (suc n) (suc m) [] = simp unary_clauses refl
drop-+ (suc n) m (x ∷ ms) =
    drop-+ n m ms ∙ ap (λ i. drop i (x ∷ ms)) {x = suc (n + m)} {y = suc n + m} (omega arith)

events_of-append :
    (types : List Bytes) (ms ns : Messages)
    → events_of types (ms ++ ns) ≡ events_of types ms ++ events_of types ns
events_of-append types [] ns = refl
events_of-append types (m ∷ ms) ns = ground (arith, events_of-append types ms ns)

-- Two pages, one behind the other, as one page.
abbrev pub joined : MessagePage → MessagePage → MessagePage
joined p q = record {
  events = p.events ++ q.events;
  next_after_seq = q.next_after_seq;
  has_more = q.has_more;
}

joined-IsPageOf :
    (k : String) (ms : Messages) (types : List Bytes) (a : ℤ) (n m : ℕ) (p q : MessagePage)
    → IsPageOf k ms types a n p
    → IsPageOf k ms types p.next_after_seq m q
    → IsPageOf k ms types a (n + m) (joined p q)
joined-IsPageOf k ms types a n m p q f g =
    let r = rows_above k a ms in
    record {
      events =
          rw (f.events, g.events, f.next, take-+ n m r)
            (sym (events_of-append types (take n r) (take m (drop n r))));
      more = rw (g.more, f.next, length-drop n r) (ground arith);
      next = rw (g.next, f.next) (drop-+ n m r);
    }

-- A request of a client, with the limit that its text stands for.
pub record Visit : Type 0 where
  pub query : MessagesQuery
  pub limit : ℕ

unfoldable pub the_page : Response → MessagePage
the_page (messages p) = p
the_page _ = record { events = []; next_after_seq = negsuc 0; has_more = false }

-- The text of after_seq asks for the rows behind `a`: all rows where it is not given.
unfoldable pub Starts : Bytes → ℤ → Type 0
Starts [] a = a ≡ negsuc 0
Starts (c ∷ s) a = parse_int (c ∷ s) ≡ some a

-- The text of limit asks for `n` rows: 1000 where it is not given.
unfoldable pub Sized : Bytes → ℕ → Type 0
Sized [] n = n ≡ 1000
Sized (c ∷ s) n = parse_int (c ∷ s) ≡ some (pos n)

module _ (ss : Sessions) (ms : Messages) (k : String) where
  -- What the endpoint answers to a request, as a page.
  abbrev pub page : Visit → MessagePage
  page v = the_page (list_messages false false ss ms k v.query)

  -- Requests that do not follow, for the same types, each for 1 to 10000 rows, the first of which
  -- starts behind `a` and each other behind the next_after_seq of the page before.
  unfoldable pub Walk : List Bytes → ℤ → List Visit → Type 0
  Walk types a [] = Unit
  Walk types a (v ∷ vs) =
      (bytes_eq v.query.follow (codes "true") ≡ false)
      × Starts v.query.after_seq a
      × Sized v.query.limit v.limit
      × (1 ≤ v.limit)
      × (v.limit ≤ 10000)
      × (parse_types_filter v.query.types ≡ types)
      × Walk types (page v).next_after_seq vs

  -- Every request is answered with a page.
  pub Answered : List Visit → Type 0
  Answered [] = Unit
  Answered (v ∷ vs) = (list_messages false false ss ms k v.query ≡ messages (page v)) × Answered vs

  -- The pages of a walk as one page, and the sum of their limits.
  pub pages : Visit → List Visit → MessagePage
  pages v [] = page v
  pages v (w ∷ vs) = joined (page v) (pages w vs)

  pub limits : Visit → List Visit → ℕ
  limits v [] = v.limit
  limits v (w ∷ vs) = v.limit + limits w vs

  after_of-Starts : (raw : Bytes) (a : ℤ) → Starts raw a → after_of raw ≡ some a
  unfolding after_of Starts
  after_of-Starts [] a h = ap some (sym h)
  after_of-Starts (c ∷ s) a h = h

  parse_limit-Sized :
      (raw : Bytes) (n : ℕ) → Sized raw n → 1 ≤ n → n ≤ 10000 → parse_limit 1000 1 10000 raw ≡ ok n
  unfolding Sized
  parse_limit-Sized [] n size low high = parse_limit-default 1000 1 10000 n size
  parse_limit-Sized (c ∷ s) n size low high = parse_limit-given 1000 1 10000 n c s low high size

  list_messages-Starts :
      (s : Session) (types : List Bytes) (a : ℤ) (v : Visit)
      → get_session false k ss ≡ ok s
      → bytes_eq v.query.follow (codes "true") ≡ false
      → Starts v.query.after_seq a
      → Sized v.query.limit v.limit
      → 1 ≤ v.limit
      → v.limit ≤ 10000
      → parse_types_filter v.query.types ≡ types
      → list_messages false false ss ms k v.query
        ≡ messages (page_of types a v.limit (take (v.limit + 1) (rows_after k a ms)))
  unfolding list_messages messages_found messages_after messages_limited list_messages_after_seq
  list_messages-Starts s types a v found f start size low high t =
      rw
        (
          f,
          found,
          after_of-Starts v.query.after_seq a start,
          parse_limit-Sized v.query.limit v.limit size low high,
          t,
        )
        refl

  page-IsPageOf :
      (types : List Bytes) (a : ℤ) (v : Visit)
      → IsKeyed ms
      → list_messages false false ss ms k v.query
        ≡ messages (page_of types a v.limit (take (v.limit + 1) (rows_after k a ms)))
      → (list_messages false false ss ms k v.query ≡ messages (page v))
        × IsPageOf k ms types a v.limit (page v)
  unfolding the_page
  page-IsPageOf types a v keyed e = rw e (refl, page_of-IsPageOf k ms types a v.limit keyed)

  -- Where the table has no two rows of one session and number, stays as it is in the meantime, the session
  -- is there and the driver answers: every request of a client that goes from page to page by
  -- next_after_seq, each for 1 to 10000 rows, is answered with a page; and its pages joined are one page of
  -- the rows above the number that it started from, as long as the limits together. So they miss and repeat
  -- no row, hold the lines of the rows of the types asked for in order, and tell truly whether more rows
  -- follow. A client that gives no after_seq starts before the first row.
  pub pages-IsPageOf :
      (s : Session) (types : List Bytes) (a : ℤ) (v : Visit) (vs : List Visit)
      → get_session false k ss ≡ ok s
      → IsKeyed ms
      → Walk types a (v ∷ vs)
      → Answered (v ∷ vs) × IsPageOf k ms types a (limits v vs) (pages v vs)
  unfolding Walk Answered pages limits
  pages-IsPageOf s types a v [] found keyed (f, start, size, low, high, t, rest) =
      let (answer, one) =
        page-IsPageOf types a v keyed
          (list_messages-Starts s types a v found f start size low high t) in
      ((answer, tt), one)
  pages-IsPageOf s types a v (w ∷ vs) found keyed (f, start, size, low, high, t, rest) =
      let (answer, one) =
        page-IsPageOf types a v keyed
          (list_messages-Starts s types a v found f start size low high t) in
      let (others, more) = pages-IsPageOf s types (page v).next_after_seq w vs found keyed rest in
      (
        (answer, others),
        joined-IsPageOf k ms types a v.limit (limits w vs) (page v) (pages w vs) one more,
      )
