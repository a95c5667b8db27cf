-- ===== src/Store/Sessions/Lifecycle.antt =====
-- The states of a session over any sequence of operations of Store/Sessions.antt.
use mathlib.Core.Option
use meowth.Prelude.{
  ℕ, ◌≡◌, refl, Bool, true, false, List, [], ◌∷◌, ◌++◌, Option, none, some, String, str_eq, map,
  Result, ok, err, Bytes, arith, if◌then◌else◌, Bool-cases, Option-cases, sym, subst, inl, inr, ◌⊎◌,
}
use meowth.Store.Sessions.{
  Session, Sessions, SessionError, InsertSessionParams, UpdateSessionEndedParams, find,
  insert_session, update_session_backend_session_id, update_session_ended, update_where, ended,
  mark_running_sessions_aborted, is_running, aborted_row, is_terminal, running_row,
}

pub data Op : Type 0 where
  insert : Bool → InsertSessionParams → Op
  set_backend_id : Bool → String → Bytes → Op
  end : Bool → UpdateSessionEndedParams → Op
  abort_running : Bool → Bool → ℕ → Op

unfoldable pub second : {A : Type 0} → Sessions → Result SessionError (A × Sessions) → Sessions
second ss (ok (a, ss')) = ss'
second ss (err e) = ss

unfoldable pub only : Sessions → Result SessionError Sessions → Sessions
only ss (ok ss') = ss'
only ss (err e) = ss

-- An operation that fails leaves the table as it was.
unfoldable pub apply : Op → Sessions → Sessions
unfolding second only
apply (insert f p) ss = second ss (insert_session f p ss)
apply (set_backend_id f id b) ss = only ss (update_session_backend_session_id f id b ss)
apply (end f p) ss = only ss (update_session_ended f p ss)
apply (abort_running c u now) ss = second ss (mark_running_sessions_aborted c u now ss)

unfoldable pub run : List Op → Sessions → Sessions
run [] ss = ss
run (op ∷ ops) ss = run ops (apply op ss)

abbrev pub IsOver : Option Session → Type 0
IsOver none = ⊥
IsOver (some s) = is_terminal s.status ≡ true

insert-cases :
    (f : Bool) (p : InsertSessionParams) (ss : Sessions)
    → (apply (insert f p) ss ≡ ss) ⊎ (apply (insert f p) ss ≡ ss ++ running_row p ∷ [])
unfolding apply insert_session
insert-cases f p ss = ground arith

end-cases :
    (f : Bool) (p : UpdateSessionEndedParams) (ss : Sessions)
    → (apply (end f p) ss ≡ ss)
      ⊎ ((is_terminal p.status ≡ true) × (apply (end f p) ss ≡ update_where p.id (ended p) ss))
unfolding apply update_session_ended
end-cases f p ss = ground arith

abort-cases :
    (c u : Bool) (now : ℕ) (ss : Sessions)
    → (apply (abort_running c u now) ss ≡ ss)
      ⊎ (apply (abort_running c u now) ss
          ≡ map (λ (s : Session). if is_running s then aborted_row now s else s) ss)
unfolding apply mark_running_sessions_aborted
abort-cases c u now ss = ground arith

module _ (k : String) where
  pub find-map :
      (f : Session → Session)
      → ((s : Session) → (f s).id ≡ s.id)
      → (ss : Sessions) → find k (map f ss) ≡ Option.map f (find k ss)
  unfolding find
  find-map f same [] = refl
  find-map f same (s ∷ ss) =
      simp (same s, find-map f same ss)
        (elim (Bool-cases (str_eq s.id k)) [ inl e ↦ rw e refl | inr e ↦ rw e refl ])

  pub find-append :
      (ss : Sessions) (s x : Session) → find k ss ≡ some x → find k (ss ++ s ∷ []) ≡ some x
  unfolding find
  find-append [] s x h = cc
  find-append (t ∷ ss) s x h = ground (arith, find-append ss s x)

  append-IsOver :
      (ss : Sessions) (s : Session) → IsOver (find k ss) → IsOver (find k (ss ++ s ∷ []))
  append-IsOver ss s h = elim (Option-cases (find k ss)) [
    | inl miss ↦ absurd (rw miss at h)
    | inr (x, hit) ↦ rw (find-append ss s x hit) (rw hit at h)
  ]

  map-IsOver :
      (f : Session → Session)
      → ((s : Session) → (f s).id ≡ s.id)
      → ((s : Session) → is_terminal s.status ≡ true → is_terminal (f s).status ≡ true)
      → (ss : Sessions) → IsOver (find k ss)
      → IsOver (find k (map f ss))
  map-IsOver f same keeps ss h = subst IsOver (sym (find-map f same ss)) (over (find k ss) h)
    where
      over : (o : Option Session) → IsOver o → IsOver (Option.map f o)
      over none i = i
      over (some s) i = keeps s i

  update-IsOver :
      (id : String) (change : Session → Session)
      → ((s : Session) → (change s).id ≡ s.id)
      → ((s : Session) → is_terminal s.status ≡ true → is_terminal (change s).status ≡ true)
      → (ss : Sessions) → IsOver (find k ss)
      → IsOver (find k (update_where id change ss))
  unfolding update_where
  update-IsOver id change same keeps ss h =
      map-IsOver _ (λ s. pick_id (str_eq s.id id) s) (λ s. pick_over (str_eq s.id id) s) ss h
    where
      pick_id : (b : Bool) (s : Session) → (if b then change s else s).id ≡ s.id
      pick_id true s = same s
      pick_id false s = refl

      pick_over :
          (b : Bool) (s : Session)
          → is_terminal s.status ≡ true
          → is_terminal (if b then change s else s).status ≡ true
      pick_over true s t = keeps s t
      pick_over false s t = t

  abort_over :
      (now : ℕ) (s : Session)
      → is_terminal s.status ≡ true
      → is_terminal (if is_running s then aborted_row now s else s).status ≡ true
  unfolding is_running is_terminal
  abort_over now s t = ground arith

  pub abort_id : (now : ℕ) (s : Session) → (if is_running s then aborted_row now s else s).id ≡ s.id
  abort_id now s = ground arith

  apply-IsOver : (op : Op) (ss : Sessions) → IsOver (find k ss) → IsOver (find k (apply op ss))
  unfolding apply
  apply-IsOver (insert f p) ss h = elim (insert-cases f p ss) [
    | inl e ↦ rw e h
    | inr e ↦ rw e (append-IsOver ss (running_row p) h)
  ]
  apply-IsOver (set_backend_id true id b) ss h = unfold update_session_backend_session_id in h
  apply-IsOver (set_backend_id false id b) ss h =
      unfold update_session_backend_session_id in update-IsOver id _ (λ s. refl) (λ s t. t) ss h
  apply-IsOver (end f p) ss h = elim (end-cases f p ss) [
    | inl e ↦ rw e h
    | inr (t, e) ↦ rw e (update-IsOver p.id (ended p) (λ s. refl) (λ s u. t) ss h)
  ]
  apply-IsOver (abort_running c u now) ss h = elim (abort-cases c u now ss) [
    | inl e ↦ rw e h
    | inr e ↦ rw e (map-IsOver _ (abort_id now) (abort_over now) ss h)
  ]

  -- A session that has reached a terminal status is there, with a terminal status, after any
  -- sequence of inserts, updates and startup cleanups, failing or not.
  pub terminal_forever :
      (ops : List Op) (ss : Sessions) → IsOver (find k ss) → IsOver (find k (run ops ss))
  unfolding run
  terminal_forever [] ss h = h
  terminal_forever (op ∷ ops) ss h = terminal_forever ops (apply op ss) (apply-IsOver op ss h)
