-- ===== src/Prelude/Counting.antt =====
-- How often a number stands in a list.
use Prim.Native.Nat.{ℕ, suc, ◌+◌}
use mathlib.Core.Path.{◌≡◌}
use mathlib.Core.List.{List, [], ◌∷◌, ◌++◌}
use native.Mathlib.Omega.{arith}
use pgfox.Prelude.Tests.{◌==◌, if◌then◌else◌}

unfoldable pub count : ℕ → List ℕ → ℕ
count x [] = 0
count x (y ∷ ys) = if y == x then suc (count x ys) else count x ys

pub count-append : (x : ℕ) (ys zs : List ℕ) → count x (ys ++ zs) ≡ count x ys + count x zs
unfolding count
count-append x [] zs = omega arith
count-append x (y ∷ ys) zs = ground (arith, count-append x ys zs)

pub count-last : (x : ℕ) (ys : List ℕ) → count x (ys ++ x ∷ []) ≡ suc (count x ys)
unfolding count
count-last x ys = ground (arith, count-append x ys (x ∷ []))
