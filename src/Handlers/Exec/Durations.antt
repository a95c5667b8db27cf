-- ===== src/Handlers/Exec/Durations.antt =====
-- What the validation of Handlers/Exec.antt makes of the durations.
use meowth.Prelude.{
  ℕ, ◌*◌, ◌%◌, ◌^◌, ◌≡◌, refl, true, false, ltb, ok, ℤ, pos, negsuc, arith, sym, subst, ◌↔◌,
}
use meowth.Handlers.Exec.{
  max_timeout_ms, is_negative, exceeds_max, validate_exec_timeouts, wrap, ms_to_duration,
}

-- A natural number of milliseconds whose nanoseconds an int64 holds, and these nanoseconds.
pub record IsExact (ms : ℤ) : Type 0 where
  pub millis : ℕ
  pub is_pos : ms ≡ pos millis
  pub fits : ltb (millis * 1000000) (2 ^ 63) ≡ true
  pub converts : ms_to_duration ms ≡ pos (millis * 1000000)

remainder : (n : ℕ) → ltb n (2 ^ 63) ≡ true → n % 2 ^ 64 ≡ n
remainder n h = ground (arith, h)

wrap-small : (n : ℕ) → ltb n (2 ^ 63) ≡ true → wrap n ≡ pos n
unfolding wrap
wrap-small n h = rw (remainder n h, h) refl

small : (n : ℕ) → ltb max_timeout_ms n ≡ false → ltb (n * 1000000) (2 ^ 63) ≡ true
small n h = ground (arith, h)

small_only : (n : ℕ) → ltb (n * 1000000) (2 ^ 63) ≡ true → ltb max_timeout_ms n ≡ false
small_only n h = ground (arith, h)

converts_small :
    (n : ℕ) → ltb (n * 1000000) (2 ^ 63) ≡ true → ms_to_duration (pos n) ≡ pos (n * 1000000)
unfolding ms_to_duration
converts_small n h = ground (arith, h, wrap-small (n * 1000000) h)

in_range-IsExact : (ms : ℤ) → is_negative ms ≡ false → exceeds_max ms ≡ false → IsExact ms
unfolding is_negative exceeds_max
in_range-IsExact (pos n) a b = record {
  millis = n;
  is_pos = refl;
  fits = small n b;
  converts = converts_small n (small n b);
}
in_range-IsExact (negsuc n) a b = cc a

IsExact-in_range : (ms : ℤ) → IsExact ms → (is_negative ms ≡ false) × (exceeds_max ms ≡ false)
unfolding is_negative exceeds_max
IsExact-in_range (pos n) e =
    let same : n ≡ e.millis = cc e.is_pos in
    (refl, small_only n (subst (λ k. ltb (k * 1000000) (2 ^ 63) ≡ true) (sym same) e.fits))
IsExact-in_range (negsuc n) e = cc e.is_pos

in_range :
    (t s m : ℤ)
    → validate_exec_timeouts t s m ≡ ok tt
    → (is_negative t ≡ false)
      × (exceeds_max t ≡ false)
      × (is_negative s ≡ false)
      × (exceeds_max s ≡ false)
      × (is_negative m ≡ false)
unfolding validate_exec_timeouts
in_range t s m h = ground (arith, h)

-- The validation accepts exactly the durations that are not negative and whose nanoseconds fit into
-- an int64, with a number of turns that is not negative; so the conversion of an accepted duration
-- never wraps around.
pub accepted_iff_IsExact :
    (t s m : ℤ)
    → (validate_exec_timeouts t s m ≡ ok tt) ↔ (IsExact t × IsExact s × (is_negative m ≡ false))
unfolding validate_exec_timeouts
accepted_iff_IsExact t s m = (
  (λ h.
      let (a, b, c, d, e) = in_range t s m h in
      (in_range-IsExact t a b, in_range-IsExact s c d, e)),
  (λ (x, y, e).
      let (a, b) = IsExact-in_range t x in
      let (c, d) = IsExact-in_range s y in ground (arith, a, b, c, d, e)),
)
