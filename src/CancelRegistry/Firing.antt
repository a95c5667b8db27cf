-- ===== src/CancelRegistry/Firing.antt =====
-- Each CancelFunc fires at most once, over any interleaving of the methods of CancelRegistry.antt.
use meowth.Prelude.{
  ℕ, ◌+◌, ◌≤◌, ◌≡◌, refl, true, false, not, ◌&&◌, List, [], ◌∷◌, Option, none, some, String, eq_iff,
  if◌then◌else◌, contains, contains-delete, delete, lookup, erase, ◌==◌, arith,
}
use meowth.CancelRegistry.{
  Registry, register, unregister, cancel, cancel_found, cancel_all, sweep, mark,
}

pub data Op : Type 0 where
  register_op : String → ℕ → Op
  unregister_op : String → Op
  cancel_op : String → Op
  cancel_all_op : Op

unfoldable pub apply : Op → Registry → Registry
apply (register_op id c) r = register id c r
apply (unregister_op id) r = unregister id r
apply (cancel_op id) r = (cancel id r).0
apply cancel_all_op r = (cancel_all r).0

unfoldable pub fires : Op → Registry → List ℕ
fires (register_op id c) r = []
fires (unregister_op id) r = []
fires (cancel_op id) r = (cancel id r).2
fires cancel_all_op r = (cancel_all r).1

unfoldable pub run : List Op → Registry → Registry
run [] r = r
run (op ∷ ops) r = run ops (apply op r)

-- How often `c` stands in a list.
abbrev pub count : ℕ → List ℕ → ℕ
count c [] = 0
count c (d ∷ ds) = (if d == c then 1 else 0) + count c ds

-- How often `c` fires in a run, and how often it is registered.
unfoldable pub fired_in : ℕ → List Op → Registry → ℕ
fired_in c [] r = 0
fired_in c (op ∷ ops) r = count c (fires op r) + fired_in c ops (apply op r)

abbrev pub registers : ℕ → Op → ℕ
registers c (register_op id d) = if d == c then 1 else 0
registers c _ = 0

abbrev pub registered_in : ℕ → List Op → ℕ
registered_in c [] = 0
registered_in c (op ∷ ops) = registers c op + registered_in c ops

module _ (c : ℕ) where
  -- The registrations of `c` that can still fire.
  abbrev pub armed : List (String × ℕ) → List String → ℕ
  armed [] req = 0
  armed ((id, d) ∷ m) req = (if d == c && not (contains id req) then 1 else 0) + armed m req

  armed-cons :
      (k : String) (m : List (String × ℕ)) (req : List String) → armed m (k ∷ req) ≤ armed m req
  unfolding contains
  armed-cons k [] req = omega arith
  armed-cons k ((id, d) ∷ m) req = ground (arith, armed-cons k m req)

  armed-erase :
      (k : String) (m : List (String × ℕ)) (req : List String)
      → armed (erase k m) (delete k req) ≤ armed m req
  unfolding erase
  armed-erase k [] req = omega arith
  armed-erase k ((id, d) ∷ m) req =
      ground (arith, armed-erase k m req, contains-delete k id req, eq_iff id k, eq_iff k id)

  armed-lookup :
      (k : String) (m : List (String × ℕ)) (req : List String) (d : ℕ)
      → lookup k m ≡ some d
      → contains k req ≡ false
      → (if d == c then 1 else 0) + armed m (k ∷ req) ≤ armed m req
  unfolding lookup contains
  armed-lookup k [] req d h u = cc
  armed-lookup k ((id, e) ∷ m) req d h u =
      ground (arith, armed-lookup k m req d, armed-cons k m req, eq_iff id k, eq_iff k id)

  sweep_keeps :
      (k : String) (m : List (String × ℕ)) (r : Registry)
      → contains k r.requested ≡ true
      → contains k (sweep m r).0.requested ≡ true
  unfolding sweep contains
  sweep_keeps k [] r h = h
  sweep_keeps k ((id, d) ∷ m) r h =
      ground (arith, sweep_keeps k m r, sweep_keeps k m (mark id r), eq_iff id k)

  sweep-armed :
      (m : List (String × ℕ)) (r : Registry)
      → count c (sweep m r).1 + armed m (sweep m r).0.requested ≤ armed m r.requested
  unfolding sweep contains
  sweep-armed [] r = omega arith
  sweep-armed ((id, d) ∷ m) r = ground (
    arith,
    sweep-armed m r,
    sweep-armed m (mark id r),
    sweep_keeps id m r,
    sweep_keeps id m (mark id r),
    armed-cons id m r.requested,
    eq_iff id id,
  )

  sweep-cancels : (m : List (String × ℕ)) (r : Registry) → (sweep m r).0.cancels ≡ r.cancels
  unfolding sweep
  sweep-cancels [] r = refl
  sweep-cancels ((id, d) ∷ m) r = ground (arith, sweep-cancels m r, sweep-cancels m (mark id r))

  cancel-armed :
      (id : String) (r : Registry) (o : Option ℕ)
      → lookup id r.cancels ≡ o
      → count c (cancel_found id r o).2
          + armed (cancel_found id r o).0.cancels (cancel_found id r o).0.requested
        ≤ armed r.cancels r.requested
  unfolding cancel_found
  cancel-armed id r none h = omega arith
  cancel-armed id r (some d) h = ground (arith, armed-lookup id r.cancels r.requested d)

  step-armed :
      (op : Op) (r : Registry)
      → count c (fires op r) + armed (apply op r).cancels (apply op r).requested
        ≤ registers c op + armed r.cancels r.requested
  unfolding fires apply
  step-armed (register_op id d) r =
      unfold register in ground (arith, armed-erase id r.cancels r.requested)
  step-armed (unregister_op id) r =
      unfold unregister in omega (arith, armed-erase id r.cancels r.requested)
  step-armed (cancel_op id) r =
      unfold cancel in omega (arith, cancel-armed id r (lookup id r.cancels) refl)
  step-armed cancel_all_op r =
      unfold cancel_all in ground (arith, sweep-armed r.cancels r, sweep-cancels r.cancels r)

  -- Over any interleaving of registrations, unregistrations, user cancels and shutdowns, a
  -- CancelFunc fires at most as often as it is registered, counting the registrations that could
  -- still fire at the start: once, if it is registered once.
  pub fires-le-registers :
      (ops : List Op) (r : Registry)
      → fired_in c ops r + armed (run ops r).cancels (run ops r).requested
        ≤ registered_in c ops + armed r.cancels r.requested
  unfolding fired_in run
  fires-le-registers [] r = omega arith
  fires-le-registers (op ∷ ops) r =
      omega (arith, step-armed op r, fires-le-registers ops (apply op r))
