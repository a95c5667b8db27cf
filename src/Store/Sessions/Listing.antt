-- ===== src/Store/Sessions/Listing.antt =====
-- `ListSessions` of Store/Sessions.antt answers a page of the rows that pass both filters.
use meowth.Prelude.{
  ℕ, ◌≡◌, refl, Bool, true, false, ◌&&◌, ◌||◌, List, [], ◌∷◌, Option, none, some, String, ltb,
  filter, ok, IsPage, take-IsPage, arith, ap, subst,
}
use meowth.Store.Sessions.{
  Session, Sessions, ListSessionsParams, one_of, list_sessions, choose_query, page,
}

abbrev is_nil : List String → Bool
is_nil [] = true
is_nil (t ∷ ts) = false

abbrev started_before : Option ℕ → Session → Bool
started_before none s = true
started_before (some b) s = ltb s.started_at b

-- The row has one of the wanted statuses, if any are given, and started before the given time, if
-- one is given.
pub wanted : ListSessionsParams → Session → Bool
wanted p s = (is_nil p.statuses || one_of s.status p.statuses) && started_before p.before s

filter_ext :
    (f g : Session → Bool)
    → ((s : Session) → f s ≡ g s)
    → (ss : Sessions) → filter f ss ≡ filter g ss
filter_ext f g h [] = refl
filter_ext f g h (s ∷ ss) = rw (h s, filter_ext f g h ss) refl

filter-true : (ss : Sessions) → ss ≡ filter (λ (s : Session). true) ss
filter-true [] = refl
filter-true (s ∷ ss) = ap (λ (r : Sessions). s ∷ r) (filter-true ss)

choose_query-IsPage :
    (ts : List String) (b : Option ℕ) (limit : ℕ) (ss : Sessions)
    → IsPage
        (λ (s : Session). s.started_at)
        limit
        (choose_query ts b limit ss)
        (filter (wanted (record { statuses = ts; limit = limit; before = b })) ss)
unfolding choose_query page wanted
choose_query-IsPage [] none limit ss =
    rw (← filter-true ss) (take-IsPage (λ (s : Session). s.started_at) limit ss)
choose_query-IsPage [] (some b) limit ss =
    take-IsPage (λ (s : Session). s.started_at) limit (filter (λ s. ltb s.started_at b) ss)
choose_query-IsPage (t ∷ ts) none limit ss =
    rw
      (filter_ext (λ s. one_of s.status (t ∷ ts) && true) (λ s. one_of s.status (t ∷ ts))
        (λ s. ground arith) ss)
      (take-IsPage (λ (s : Session). s.started_at) limit
        (filter (λ s. one_of s.status (t ∷ ts)) ss))
choose_query-IsPage (t ∷ ts) (some b) limit ss =
    take-IsPage (λ (s : Session). s.started_at) limit
      (filter (λ s. one_of s.status (t ∷ ts) && ltb s.started_at b) ss)

-- The answer holds the newest of the rows that pass both filters, newest first, at most `limit` of
-- them, and all of them unless the limit is reached.
pub list_sessions-IsPage :
    (p : ListSessionsParams) (ss rows : Sessions)
    → list_sessions false p ss ≡ ok rows
    → IsPage (λ (s : Session). s.started_at) p.limit rows (filter (wanted p) ss)
unfolding list_sessions
list_sessions-IsPage p ss rows h =
    subst
      (λ (xs : Sessions). IsPage (λ (s : Session). s.started_at) p.limit xs (filter (wanted p) ss))
      (ground arith) (choose_query-IsPage p.statuses p.before p.limit ss)
