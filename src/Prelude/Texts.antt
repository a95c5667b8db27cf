-- ===== src/Prelude/Texts.antt =====
-- Suffixes, substrings, lower case and splitting of Go strings, as lists of bytes.
use Prim.Native.Nat.{ℕ, ◌+◌, ◌-◌}
use mathlib.Core.Path.{◌≡◌, refl, ap}
use mathlib.Core.Bool.{Bool, true, false, ◌&&◌, ◌||◌}
use mathlib.Core.List.{List, [], ◌∷◌, ◌++◌, map}
use native.Mathlib.Omega.{arith}
use meowth.Prelude.Tests.{leb, ◌==◌, if◌then◌else◌}
use meowth.Prelude.Lists.{length, take, drop, length-append}
use meowth.Prelude.ByteStrings.{Bytes, bytes_eq, bytes_eq_refl, has_prefix}

unfoldable pub is_blank : Bytes → Bool
is_blank [] = true
is_blank (c ∷ s) = false

-- `strings.HasSuffix(s, p)`.
unfoldable pub has_suffix : Bytes → Bytes → Bool
has_suffix s p = leb (length p) (length s) && bytes_eq (drop (length s - length p) s) p

-- `strings.TrimSuffix(s, p)`.
unfoldable pub trim_suffix : Bytes → Bytes → Bytes
trim_suffix s p = if has_suffix s p then take (length s - length p) s else s

-- `strings.Contains(s, sub)`.
unfoldable pub contains_text : Bytes → Bytes → Bool
contains_text [] sub = has_prefix [] sub
contains_text (c ∷ s) sub = has_prefix (c ∷ s) sub || contains_text s sub

-- `strings.ToLower` on an ASCII byte, and on an ASCII text.
unfoldable pub lower : ℕ → ℕ
lower c = if leb b'A' c && leb c b'Z' then c + 32 else c

unfoldable pub to_lower : Bytes → Bytes
unfolding lower
to_lower s = map lower s

-- `strings.Split(s, sep)` for a separator of one byte.
cons_first : ℕ → List Bytes → List Bytes
cons_first c [] = (c ∷ []) ∷ []
cons_first c (p ∷ ps) = (c ∷ p) ∷ ps

unfoldable pub split_on : ℕ → Bytes → List Bytes
unfolding cons_first
split_on sep [] = [] ∷ []
split_on sep (c ∷ s) =
    let rest = split_on sep s in if c == sep then [] ∷ rest else cons_first c rest

-- `strings.Join(parts, sep)`.
unfoldable pub join : Bytes → List Bytes → Bytes
join sep [] = []
join sep (p ∷ []) = p
join sep (p ∷ q ∷ ps) = p ++ sep ++ join sep (q ∷ ps)

unfoldable pub concat : List Bytes → Bytes
concat [] = []
concat (p ∷ ps) = p ++ concat ps

pub drop-append : (a b : Bytes) → drop (length a) (a ++ b) ≡ b
drop-append [] b = refl
drop-append (c ∷ a) b = drop-append a b

pub take-append : (a b : Bytes) → take (length a) (a ++ b) ≡ a
take-append [] b = refl
take-append (c ∷ a) b = ap (λ (r : Bytes). c ∷ r) (take-append a b)

front_length : (a b : Bytes) → length (a ++ b) - length b ≡ length a
front_length a b = omega (arith, length-append a b)

pub has_suffix-append : (a b : Bytes) → has_suffix (a ++ b) b ≡ true
unfolding has_suffix
has_suffix-append a b =
    rw (front_length a b, drop-append a b, bytes_eq_refl b) (ground (arith, length-append a b))

pub trim_suffix-append : (a b : Bytes) → trim_suffix (a ++ b) b ≡ a
unfolding trim_suffix
trim_suffix-append a b = rw (has_suffix-append a b, front_length a b) (take-append a b)
