-- ===== src/Prelude/Spaces.antt =====
-- `strings.TrimSpace` on the bytes of a UTF-8 text.
use Prim.Native.Nat.{ℕ}
use mathlib.Core.Bool.{Bool, ◌&&◌, ◌||◌}
use mathlib.Core.List.{[], ◌∷◌, reverse}
use meowth.Prelude.Tests.{leb, ◌==◌, if◌then◌else◌}
use meowth.Prelude.ByteStrings.{Bytes}

-- `unicode.IsSpace` of a rune of one byte, of two bytes (U+0085, U+00A0) and of three.
unfoldable pub is_space : ℕ → Bool
is_space c = (leb 9 c && leb c 13) || c == b' '

is_space_2 : ℕ → ℕ → Bool
is_space_2 a b = a == 0xC2 && (b == 0x85 || b == 0xA0)

is_space_3 : ℕ → ℕ → ℕ → Bool
is_space_3 a b c =
    (a == 0xE1 && (b == 0x9A && c == 0x80))
    || (a == 0xE2
        && (b == 0x80 && ((leb 0x80 c && leb c 0x8A) || c == 0xA8 || c == 0xA9 || c == 0xAF)))
    || (a == 0xE2 && (b == 0x81 && c == 0x9F))
    || (a == 0xE3 && (b == 0x80 && c == 0x80))

-- Drops the runes of space that lead a text; the tests say which bytes make one.
module _ (two : ℕ → ℕ → Bool) (three : ℕ → ℕ → ℕ → Bool) where
  strip : Bytes → Bytes
  unfolding is_space
  strip [] = []
  strip (a ∷ []) = if is_space a then [] else a ∷ []
  strip (a ∷ b ∷ []) =
      let rest = strip (b ∷ []) in if is_space a then rest else if two a b then [] else a ∷ b ∷ []
  strip (a ∷ b ∷ c ∷ s) =
      let after_one = strip (b ∷ c ∷ s) in
      let after_two = strip (c ∷ s) in
      let after_three = strip s in
      if is_space a
      then after_one
      else if two a b
      then after_two
      else if three a b c
      then after_three
      else a ∷ b ∷ c ∷ s

trim_left : Bytes → Bytes
unfolding strip is_space_2 is_space_3
trim_left s = strip is_space_2 is_space_3 s

trim_right : Bytes → Bytes
unfolding strip is_space_2 is_space_3
trim_right s = reverse (strip (λ a b. is_space_2 b a) (λ a b c. is_space_3 c b a) (reverse s))

unfoldable pub trim_space : Bytes → Bytes
unfolding trim_left trim_right
trim_space s = trim_right (trim_left s)
