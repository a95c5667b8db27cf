-- ===== src/CancelRegistry/Shutdown.antt =====
-- What `Cancel` and `CancelAll` of CancelRegistry.antt record, which decides between a cancelled
-- and an aborted session.
use meowth.Prelude.{
  ℕ, ◌≡◌, refl, Bool, true, false, not, ◌&&◌, ◌||◌, List, [], ◌∷◌, Option, none, some, String,
  str_eq, eq_iff, contains, contains-delete, lookup, arith, ◌⊎◌, ◌≢◌, All, Bool-cases, inl, inr,
}
use meowth.CancelRegistry.{
  Registry, register, unregister, cancel, cancel_found, cancel_all, sweep, mark, is_shutdown,
  CancelOutcome, fired, already_requested, unknown,
}
use meowth.CancelRegistry.Firing.{
  Op, register_op, unregister_op, cancel_op, cancel_all_op, apply, run,
}

abbrev pub is_registered : String → List (String × ℕ) → Bool
is_registered k [] = false
is_registered k ((j, c) ∷ m) = str_eq j k || is_registered k m

sweep-marks :
    (k : String) (m : List (String × ℕ)) (r : Registry)
    → (contains k (sweep m r).0.requested ≡ (contains k r.requested || is_registered k m))
      × (contains k (sweep m r).0.shutdown_ids
          ≡ (contains k r.shutdown_ids || (is_registered k m && not (contains k r.requested))))
unfolding sweep contains
sweep-marks k [] r = ground arith
sweep-marks k ((id, d) ∷ m) r =
    ground (arith, sweep-marks k m r, sweep-marks k m (mark id r), eq_iff id k)

-- A shutdown requests the cancel of every registered session, and marks as shut down exactly the
-- registered ones that had not been cancelled before, besides those already marked.
pub cancel_all-marks :
    (k : String) (r : Registry)
    → (contains k (cancel_all r).0.requested
        ≡ (contains k r.requested || is_registered k r.cancels))
      × (is_shutdown k (cancel_all r).0
          ≡ (is_shutdown k r || (is_registered k r.cancels && not (contains k r.requested))))
unfolding cancel_all is_shutdown
cancel_all-marks k r = sweep-marks k r.cancels r

-- The operation is no registration and no unregistration of `k`.
abbrev pub Spares : String → Op → Type 0
Spares k (register_op id c) = str_eq id k ≡ false
Spares k (unregister_op id) = str_eq id k ≡ false
Spares k _ = Unit

-- The cancel of `k` has been requested, and `s` says whether by a shutdown.
record IsSettled (k : String) (s : Bool) (r : Registry) : Type 0 where
  asked : contains k r.requested ≡ true
  cause : contains k r.shutdown_ids ≡ s

found-IsSettled :
    (k id : String) (s : Bool) (r : Registry) (o : Option ℕ)
    → IsSettled k s r
    → IsSettled k s (cancel_found id r o).0
unfolding cancel_found contains
found-IsSettled k id s r none h = h
found-IsSettled k id s r (some c) h = ground arith

apply-IsSettled :
    (k : String) (s : Bool) (op : Op) (r : Registry)
    → Spares k op
    → IsSettled k s r
    → IsSettled k s (apply op r)
unfolding apply
apply-IsSettled k s (register_op id c) r n h =
    unfold register in
    ground (arith, contains-delete id k r.requested, contains-delete id k r.shutdown_ids)
apply-IsSettled k s (unregister_op id) r n h =
    unfold unregister in
    ground (arith, contains-delete id k r.requested, contains-delete id k r.shutdown_ids)
apply-IsSettled k s (cancel_op id) r n h =
    unfold cancel in found-IsSettled k id s r (lookup id r.cancels) h
apply-IsSettled k s cancel_all_op r n h =
    unfold cancel_all in ground (arith, sweep-marks k r.cancels r)

run-IsSettled :
    (k : String) (s : Bool) (ops : List Op) (r : Registry)
    → All (Spares k) ops
    → IsSettled k s r
    → IsSettled k s (run ops r)
unfolding run
run-IsSettled k s [] r a h = h
run-IsSettled k s (op ∷ ops) r a h =
    run-IsSettled k s ops (apply op r) a.1 (apply-IsSettled k s op r a.0 h)

found_not_fired :
    (k : String) (r : Registry) (o : Option ℕ)
    → contains k r.requested ≡ true
    → (cancel_found k r o).1 ≢ fired
unfolding cancel_found
found_not_fired k r none h = λ e. cc
found_not_fired k r (some c) h = ground arith

-- Once the cancel of a session has been requested, its cause is settled until the session is
-- registered or unregistered again: whatever other calls come, `IsShutdown` answers as it did,
-- and no `Cancel` of the session fires.
pub cause_settled :
    (k : String) (ops : List Op) (r : Registry)
    → contains k r.requested ≡ true
    → All (Spares k) ops
    → (is_shutdown k (run ops r) ≡ is_shutdown k r) × ((cancel k (run ops r)).1 ≢ fired)
unfolding is_shutdown cancel
cause_settled k ops r asked a =
    let h =
      run-IsSettled k (contains k r.shutdown_ids) ops r a
        (record { asked = asked; cause = refl }) in
    (h.cause, found_not_fired k (run ops r) (lookup k (run ops r).cancels) h.asked)

-- What one cancel of `k` reports, records and fires, in each of its three cases.
abbrev pub Cancelled : String → Registry → Registry × CancelOutcome × List ℕ → Type 0
Cancelled k r (r', o, fs) =
    ((o ≡ fired)
      × (contains k r.requested ≡ false)
      × (contains k r'.requested ≡ true)
      × (is_shutdown k r' ≡ is_shutdown k r)
      × ((c : ℕ) × (lookup k r.cancels ≡ some c) × (fs ≡ c ∷ [])))
    ⊎ (((o ≡ already_requested) × (contains k r.requested ≡ true) × (r' ≡ r) × (fs ≡ []))
        ⊎ ((o ≡ unknown) × (lookup k r.cancels ≡ none) × (r' ≡ r) × (fs ≡ [])))

found-Cancelled :
    (k : String) (r : Registry) (o : Option ℕ)
    → lookup k r.cancels ≡ o
    → Cancelled k r (cancel_found k r o)
unfolding cancel_found is_shutdown contains
found-Cancelled k r none h = inr (inr (refl, h, refl, refl))
found-Cancelled k r (some c) h = elim (Bool-cases (contains k r.requested)) [
  | inl old ↦ rw old (inr (inl (refl, refl, refl, refl)))
  | inr new ↦ rw new (inl (refl, refl, ground (arith, eq_iff k k), refl, (c, h, refl)))
]

-- A cancel fires the session's own CancelFunc, and records a request that is no shutdown, when the
-- session is registered and its cancel was not requested before; it reports a repeated request,
-- or an unknown session, and changes nothing, otherwise.
pub cancel-Cancelled : (k : String) (r : Registry) → Cancelled k r (cancel k r)
unfolding cancel
cancel-Cancelled k r = found-Cancelled k r (lookup k r.cancels) refl
