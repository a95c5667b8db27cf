-- ===== src/Handlers/Sessions/Cancels.antt =====
-- POST /v1/sessions/{id}/cancel (Handlers/Sessions.antt): who is told that the cancel was his.
use meowth.Prelude.{
  ℕ, ◌≡◌, refl, ap, ◌∙◌, Bool, true, false, List, String, Result, ok, err, Bool-cases, inl, inr,
  All, contains,
}
use meowth.Store.Sessions.{
  Session, Sessions, SessionError, session_not_found, get_session, is_terminal,
}
use meowth.CancelRegistry.{Registry, CancelOutcome, fired, already_requested, unknown, cancel}
use meowth.CancelRegistry.Firing.{Op, run}
use meowth.CancelRegistry.Shutdown.{Spares, cancel-Cancelled, cause_settled}
use meowth.Handlers.Sessions.{
  Response, accepted, answer, answered, refused, cancel_found_session, cancel_session,
}

abbrev pub is_accepted : Response → Bool
is_accepted accepted = true
is_accepted _ = false

answered-accepted :
    (x : Registry × CancelOutcome × List ℕ) → is_accepted (answered x).1 ≡ true → x.1 ≡ fired
unfolding answered answer
answered-accepted (r, fired, fs) h = refl
answered-accepted (r, already_requested, fs) h = cc
answered-accepted (r, unknown, fs) h = cc

answered-fired :
    (x : Registry × CancelOutcome × List ℕ) → ((answered x).0 ≡ x.0) × ((answered x).2 ≡ x.2)
unfolding answered
answered-fired (r, o, fs) = (refl, refl)

not_accepted : (e : SessionError) → is_accepted (refused e) ≡ false
unfolding refused
not_accepted session_not_found = refl
not_accepted _ = refl

found-accepted :
    (r : Registry) (k : String) (s : Result SessionError Session)
    → is_accepted (cancel_found_session r k s).1 ≡ true
    → ((cancel k r).1 ≡ fired) × ((cancel_found_session r k s).0 ≡ (cancel k r).0)
unfolding cancel_found_session
found-accepted r k (err e) h = cc (not_accepted e, h)
found-accepted r k (ok s) h = elim (Bool-cases (is_terminal s.status)) [
  | inl t ↦ cc (t, h)
  | inr t ↦ rw t (answered-accepted (cancel k r) (cc (t, h)), (answered-fired (cancel k r)).0)
]

requested :
    (k : String) (r : Registry)
    → (cancel k r).1 ≡ fired
    → contains k (cancel k r).0.requested ≡ true
requested k r h = elim (cancel-Cancelled k r) [
  | inl (o, new, asked, same, rest) ↦ asked
  | inr (inl (o, old, same, none_fired)) ↦ cc (o, h)
  | inr (inr (o, gone, same, none_fired)) ↦ cc (o, h)
]

-- Once a cancel has been answered with 202, no later cancel of the session is, whatever the
-- sessions table says and whatever other cancels and shutdowns happen in between, until the session
-- is registered or unregistered again.
pub accepted_once :
    (k : String) (fails : Bool) (ss : Sessions) (r : Registry) (ops : List Op) (later_fails : Bool)
    (later : Sessions)
    → is_accepted (cancel_session fails ss r k).1 ≡ true
    → All (Spares k) ops
    → is_accepted (cancel_session later_fails later (run ops (cancel_session fails ss r k).0) k).1
      ≡ false
unfolding cancel_session
accepted_once k fails ss r ops later_fails later h a =
    let (f, e) = found-accepted r k (get_session fails k ss) h in
    let r' = run ops (cancel_found_session r k (get_session fails k ss)).0 in
    let asked = ap (λ (x : Registry). contains k x.requested) e ∙ requested k r f in
    let settled =
      cause_settled k ops (cancel_found_session r k (get_session fails k ss)).0 asked a in
    elim (Bool-cases
      (is_accepted (cancel_found_session r' k (get_session later_fails k later)).1)) [
        | inl again ↦
            absurd (settled.1 (found-accepted r' k (get_session later_fails k later) again).0)
        | inr refused_again ↦ refused_again
      ]
