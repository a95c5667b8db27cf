-- ===== src/Store/Sessions/Cleanup.antt =====
-- The startup cleanup of Store/Sessions.antt.
use mathlib.Core.Option
use meowth.Prelude.{
  ℕ, ◌≡◌, refl, Bool, false, [], ◌∷◌, String, filter, map, length, ok, arith, if◌then◌else◌,
  Bool-cases, inl, inr,
}
use meowth.Store.Sessions.{
  Session, Sessions, find, mark_running_sessions_aborted, is_running, aborted_row,
}
use meowth.Store.Sessions.Lifecycle.{find-map, abort_id}

-- What the cleanup makes of one row.
abbrev pub cleaned : ℕ → Session → Session
cleaned now s = if is_running s then aborted_row now s else s

none_running :
    (now : ℕ) (ss : Sessions) → length (filter is_running ss) ≡ 0 → ss ≡ map (cleaned now) ss
none_running now [] h = refl
none_running now (s ∷ ss) h = ground (arith, none_running now ss)

cleanup-eq :
    (c u : Bool) (now n : ℕ) (ss ss' : Sessions)
    → mark_running_sessions_aborted c u now ss ≡ ok (n, ss')
    → (n ≡ length (filter is_running ss)) × (ss' ≡ map (cleaned now) ss)
unfolding mark_running_sessions_aborted
cleanup-eq c u now n ss ss' h = ground (arith, none_running now ss)

stopped : (now : ℕ) (s : Session) → is_running (cleaned now s) ≡ false
stopped now s = elim (Bool-cases (is_running s)) [
  | inl e ↦ rw e (unfold is_running in refl)
  | inr e ↦ rw e e
]

all_stopped : (now : ℕ) (ss : Sessions) → filter is_running (map (cleaned now) ss) ≡ []
all_stopped now [] = refl
all_stopped now (s ∷ ss) = rw (stopped now s) (all_stopped now ss)

-- A cleanup that succeeds reports how many sessions were running, leaves none running, and changes
-- no other row: a running one becomes aborted at that time, keeping an error that it had.
pub cleanup_lem :
    (c u : Bool) (now n : ℕ) (ss ss' : Sessions) (k : String)
    → mark_running_sessions_aborted c u now ss ≡ ok (n, ss')
    → (n ≡ length (filter is_running ss))
      × (filter is_running ss' ≡ [])
      × (find k ss' ≡ Option.map (cleaned now) (find k ss))
cleanup_lem c u now n ss ss' k h =
    let facts = cleanup-eq c u now n ss ss' h in
    (
      facts.0,
      rw facts.1 (all_stopped now ss),
      rw facts.1 (find-map k (cleaned now) (abort_id k now) ss),
    )
