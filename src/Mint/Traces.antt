-- ===== src/Mint/Traces.antt =====
-- Sequences of calls on one window, with anything that other parts of the program do to the
-- database and to the nonce file in between.
use meowth.Prelude.{ℕ, ◌+◌, Bool, List, [], ◌∷◌}
use meowth.Mint.{
  World, Faults, ConsumeRequest, IdKey, Outcome, minted, format_error, mismatch, consume,
}

pub data Event (D : Type 0) : Type 0 where
  call : ConsumeRequest D → Faults → Event D
  outside : (D → D) → Bool → Event D

abbrev pub is_mint : Outcome → ℕ
is_mint minted = 1
is_mint _ = 0

-- The outcomes that the source calls counted.
abbrev pub is_counted : Outcome → ℕ
is_counted format_error = 1
is_counted mismatch = 1
is_counted _ = 0

module _ {D : Type 0} (id_key : IdKey) where
  unfoldable pub step : Event D → World D → World D
  step (call r f) w = (consume id_key r f w).0
  step (outside change present) w = record w { nonce_present = present; db = change w.db }

  abbrev pub weigh : (Outcome → ℕ) → Event D → World D → ℕ
  weigh p (call r f) w = p (consume id_key r f w).1
  weigh p (outside change present) w = 0

  unfoldable pub run : List (Event D) → World D → World D
  run [] w = w
  run (e ∷ es) w = run es (step e w)

  -- How many calls of the trace had an outcome that `p` counts.
  unfoldable pub total : (Outcome → ℕ) → List (Event D) → World D → ℕ
  total p [] w = 0
  total p (e ∷ es) w = weigh p e w + total p es (step e w)
