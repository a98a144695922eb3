-- ===== src/Prelude/Bytes.antt =====
-- Byte strings: Go's `[]byte` and `string` are lists of numbers; a numeral of the source is `b'x'`.
use Prim.Native.Char.{code}
use Prim.Native.String.{String}
use Prim.Native.Nat.{ℕ}
use mathlib.Core.Bool.{Bool, true, false, ◌&&◌}
use mathlib.Core.List.{List, [], ◌∷◌}
use mathlib.Core.Logic.{◌↔◌, ◌≢◌}
use mathlib.Core.Path.{◌≡◌, refl}
use native.Mathlib.Omega.{arith}
use pgfox.Prelude.Tests.{◌==◌}

abbrev pub Bytes : Type 0
Bytes = List ℕ

-- The bytes of an ASCII literal.
abbrev pub codes : String → Bytes
codes String.[] = []
codes (String.◌∷◌ c s) = code c ∷ codes s

-- Go's `==` on strings.
unfoldable pub equal : Bytes → Bytes → Bool
equal (b ∷ s) (c ∷ t) = b == c && equal s t
equal [] [] = true
equal _ _ = false

pub equal_iff : (s t : Bytes) → (equal s t ≡ true) ↔ (s ≡ t)
unfolding equal
equal_iff [] t = ground arith
equal_iff (b ∷ s) [] = ground arith
equal_iff (b ∷ s) (c ∷ t) = ground (arith, equal_iff s t)

pub equal_refl : (a : Bytes) → equal a a ≡ true
equal_refl a = (equal_iff a a).1 refl

-- No byte of the string is the terminator.
abbrev pub NoNul : Bytes → Type 0
NoNul [] = Unit {0}
NoNul (b ∷ bs) = (b ≢ 0) × NoNul bs
