-- ===== src/Handlers/Exec.antt =====
-- The durations of an exec request: daemon/internal/server/handlers/exec.go. An int64 is an integer
-- of ℤ between -2^63 and 2^63 - 1.
pub mod Flow
pub mod Durations
pub mod Tests
use meowth.Prelude.{
  ℕ, ◌+◌, ◌*◌, ◌-◌, ◌%◌, ◌^◌, Bool, true, false, ltb, leb, if◌then◌else◌, Result, ok, err, ℤ, pos,
  negsuc,
}

-- (2^63 - 1) / 10^6
abbrev pub max_timeout_ms : ℕ
max_timeout_ms = 9223372036854

pub data ExecError : Type 0 where
  timeout_negative timeout_too_large : ExecError
  inactivity_negative inactivity_too_large : ExecError
  max_turns_negative : ExecError

unfoldable pub is_negative : ℤ → Bool
is_negative (pos n) = false
is_negative (negsuc n) = true

-- `x > maxTimeoutMS`
unfoldable pub exceeds_max : ℤ → Bool
exceeds_max (pos n) = ltb max_timeout_ms n
exceeds_max (negsuc n) = false

unfoldable pub validate_exec_timeouts : ℤ → ℤ → ℤ → Result ExecError (Unit {0})
validate_exec_timeouts timeout_ms semantic_inactivity_ms max_turns =
    if is_negative timeout_ms
    then err timeout_negative
    else if exceeds_max timeout_ms
    then err timeout_too_large
    else if is_negative semantic_inactivity_ms
    then err inactivity_negative
    else if exceeds_max semantic_inactivity_ms
    then err inactivity_too_large
    else if is_negative max_turns
    then err max_turns_negative
    else ok tt

-- The int64 that a product of natural numbers wraps around to.
unfoldable pub wrap : ℕ → ℤ
wrap n = let m = n % 2 ^ 64 in if ltb m (2 ^ 63) then pos m else negsuc ((2 ^ 64 - 1) - m)

-- In nanoseconds.
unfoldable pub ms_to_duration : ℤ → ℤ
unfolding wrap
ms_to_duration (pos n) = if leb n 0 then pos 0 else wrap (n * 1000000)
ms_to_duration (negsuc n) = pos 0
