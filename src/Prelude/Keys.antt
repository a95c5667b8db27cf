-- ===== src/Prelude/Keys.antt =====
-- Sets of string keys, and maps from them, as lists: a Go map whose order nothing depends on.
use mathlib.Core.Path.{◌≡◌}
use mathlib.Core.Bool.{Bool, false, ◌||◌}
use mathlib.Core.Option.{Option, none, some}
use mathlib.Core.List.{List, [], ◌∷◌}
use native.Mathlib.Omega.{arith}
use Prim.Native.String.{String}
use text.Mathlib.Text.{◌==◌}
use text.Mathlib.TextEquality.{eq_iff}
use meowth.Prelude.Tests.{if◌then◌else◌}

unfoldable pub contains : String → List String → Bool
contains k [] = false
contains k (j ∷ js) = j == k || contains k js

unfoldable pub delete : String → List String → List String
delete k [] = []
delete k (j ∷ js) = let rest = delete k js in if j == k then rest else j ∷ rest

pub contains-delete :
    (k j : String) (js : List String)
    → contains j (delete k js) ≡ (if k == j then false else contains j js)
unfolding contains delete
contains-delete k j [] = ground arith
contains-delete k j (i ∷ js) =
    ground (arith, contains-delete k j js, eq_iff i k, eq_iff i j, eq_iff k j)

module _ {V : Type 0} where
  unfoldable pub lookup : String → List (String × V) → Option V
  lookup k [] = none
  lookup k ((j, v) ∷ m) = if j == k then some v else lookup k m

  unfoldable pub erase : String → List (String × V) → List (String × V)
  erase k [] = []
  erase k ((j, v) ∷ m) = let rest = erase k m in if j == k then rest else (j, v) ∷ rest

  pub lookup-erase :
      (k j : String) (m : List (String × V))
      → lookup j (erase k m) ≡ (if k == j then none else lookup j m)
  unfolding lookup erase
  lookup-erase k j [] = ground arith
  lookup-erase k j ((i, v) ∷ m) =
      ground (arith, lookup-erase k j m, eq_iff i k, eq_iff i j, eq_iff k j)

  -- The value of a key that is there is replaced where it stands.
  unfoldable pub insert : String → V → List (String × V) → List (String × V)
  insert key v [] = (key, v) ∷ []
  insert key v (entry ∷ entries) =
      let rest = insert key v entries in if entry.0 == key then (key, v) ∷ entries else entry ∷ rest
