-- ===== src/Mint/Lockout.antt =====
-- The failure counter of a window of Mint.antt: what it counts, and the lockout at the fifth.
use meowth.Prelude.{
  ℕ, suc, ◌+◌, ◌≤◌, ◌≡◌, true, false, List, [], ◌∷◌, arith, ◌⊎◌, inr, All, length, Bytes,
}
use meowth.Mint.{
  World, Faults, ConsumeRequest, IdKey, window_closed, consume, consume_locked,
  record_counted_failure, valid_setup_code_shape, digest_matches, max_failures,
}
use meowth.Mint.OneShot.{closed_absorbs}
use meowth.Mint.Traces.{Event, call, outside, is_counted, step, weigh, run, total}

-- The counter stays below the limit while the window is open, and never passes it.
pub record Inv {D : Type 0} (w : World D) : Type 0 where
  pub bounded : w.window.failure_count ≤ max_failures
  pub open_below : w.window.closed ≡ false → suc w.window.failure_count ≤ max_failures

module _ {D : Type 0} (id_key : IdKey) where
  step-Inv : (e : Event D) (w : World D) → Inv w → Inv (step id_key e w)
  unfolding step consume consume_locked record_counted_failure
  step-Inv (call r f) w h = ground arith
  step-Inv (outside change present) w h = record { bounded = h.bounded; open_below = h.open_below }

  pub run-Inv : (es : List (Event D)) (w : World D) → Inv w → Inv (run id_key es w)
  unfolding run
  run-Inv [] w h = h
  run-Inv (e ∷ es) w h = run-Inv es (step id_key e w) (step-Inv e w h)

  step_counts :
      (e : Event D) (w : World D)
      → (step id_key e w).window.failure_count
        ≡ w.window.failure_count + weigh id_key is_counted e w
  unfolding step consume consume_locked record_counted_failure
  step_counts (call r f) w = ground arith
  step_counts (outside change present) w = omega arith

  run_counts :
      (es : List (Event D)) (w : World D)
      → (run id_key es w).window.failure_count
        ≡ w.window.failure_count + total id_key is_counted es w
  unfolding run total
  run_counts [] w = omega arith
  run_counts (e ∷ es) w = omega (arith, step_counts e w, run_counts es (step id_key e w))

  -- From a window with the counter in bounds, the counter grows by the number of calls answered with
  -- a format error or a mismatch; it stays at most five, and below five unless the window is closed.
  pub guesses_bounded :
      (es : List (Event D)) (w : World D)
      → Inv w
      → ((run id_key es w).window.failure_count
          ≡ w.window.failure_count + total id_key is_counted es w)
        × (w.window.failure_count + total id_key is_counted es w ≤ max_failures)
        × ((suc (w.window.failure_count + total id_key is_counted es w) ≤ max_failures)
            ⊎ ((run id_key es w).window.closed ≡ true))
  guesses_bounded es w h = (
    run_counts es w,
    omega (arith, run_counts es w, run-Inv es w h),
    ground (arith, run_counts es w, run-Inv es w h),
  )

  -- A call with a code that is not of the shape, or does not hash to the digest.
  abbrev pub IsBad : World D → ConsumeRequest D × Faults → Type 0
  IsBad w (r, f) =
      (valid_setup_code_shape r.setup_code ≡ false)
      ⊎ (digest_matches id_key w.window r.setup_code ≡ false)

  abbrev pub calls : List (ConsumeRequest D × Faults) → List (Event D)
  calls [] = []
  calls ((r, f) ∷ rs) = call r f ∷ calls rs

  step_code :
      (r : ConsumeRequest D) (f : Faults) (w : World D) (code : Bytes)
      → digest_matches id_key (step id_key (call r f) w).window code
        ≡ digest_matches id_key w.window code
  unfolding step consume consume_locked record_counted_failure digest_matches
  step_code r f w code = ground arith

  IsBad-stays :
      (r : ConsumeRequest D) (f : Faults) (w : World D) (rs : List (ConsumeRequest D × Faults))
      → All (IsBad w) rs
      → All (IsBad (step id_key (call r f) w)) rs
  IsBad-stays r f w [] a = tt
  IsBad-stays r f w ((q, g) ∷ rs) a =
      (ground (arith, a.0, step_code r f w q.setup_code), IsBad-stays r f w rs a.1)

  abbrev IsSpent : World D → ℕ → Type 0
  IsSpent w n = (w.window.closed ≡ true) ⊎ (max_failures ≤ w.window.failure_count + n)

  step-IsSpent :
      (r : ConsumeRequest D) (f : Faults) (w : World D) (n : ℕ)
      → IsBad w (r, f)
      → IsSpent w (suc n)
      → IsSpent (step id_key (call r f) w) n
  unfolding step consume consume_locked record_counted_failure
  step-IsSpent r f w n b s = ground arith

  bad_calls_close :
      (rs : List (ConsumeRequest D × Faults)) (w : World D)
      → Inv w
      → All (IsBad w) rs
      → IsSpent w (length rs)
      → (run id_key (calls rs) w).window.closed ≡ true
  unfolding run
  bad_calls_close [] w h a s = ground (arith, h)
  bad_calls_close ((r, f) ∷ rs) w h a s =
      bad_calls_close rs (step id_key (call r f) w) (step-Inv (call r f) w h)
        (IsBad-stays r f w rs a.1) (step-IsSpent r f w (length rs) a.0 s)

  -- As many bad codes in a row as the counter has left, whatever the file system does, close the
  -- window: the next call is refused even with the right code, and changes nothing.
  pub lockout :
      (rs : List (ConsumeRequest D × Faults)) (w : World D) (r : ConsumeRequest D) (f : Faults)
      → Inv w
      → All (IsBad w) rs
      → max_failures ≤ w.window.failure_count + length rs
      → ((consume id_key r f (run id_key (calls rs) w)).1 ≡ window_closed)
        × ((consume id_key r f (run id_key (calls rs) w)).0 ≡ run id_key (calls rs) w)
  lockout rs w r f h a n =
      let (same, shut) =
        closed_absorbs id_key r f (run id_key (calls rs) w) (bad_calls_close rs w h a (inr n)) in
      (shut, same)
