-- ===== src/Wire/CString.antt =====
-- Null-terminated strings: the `for i, b := range body { if b == 0 … }` loops of extended.go and
-- protocol.go, and `cString` of client.go.
use mathlib.Core.Option
use pgfox.Prelude.{
  ℕ, zero, suc, ◌≡◌, refl, Option, none, some, [], ◌∷◌, ◌++◌, arith, ◌==◌, if◌then◌else◌, take,
  drop, length, take-length-append,
}
use pgfox.Prelude.Bytes.{Bytes, NoNul}

-- The index of the first NUL; `none` is the -1 that the loops start from.
unfoldable pub find_nul : Bytes → Option ℕ
find_nul [] = none
find_nul (b ∷ bs) = if b == 0 then some 0 else Option.map suc (find_nul bs)

-- `cString`: the bytes up to the first NUL, or all of them.
unfoldable pub c_string : Bytes → Bytes
unfolding find_nul
c_string body = elim (find_nul body) [ none ↦ body | some i ↦ take i body ]

pub find_nul-append :
    (name rest : Bytes) → NoNul name → find_nul (name ++ 0 ∷ rest) ≡ some (length name)
unfolding find_nul
find_nul-append [] rest h = refl
find_nul-append (b ∷ bs) rest h = ground (arith, find_nul-append bs rest h.1)

pub drop-name : (name rest : Bytes) → drop (suc (length name)) (name ++ 0 ∷ rest) ≡ rest
drop-name [] rest = refl
drop-name (b ∷ bs) rest = drop-name bs rest

-- Where a NUL is found, the string is what stands before it, the NUL, and the rest.
pub record Splits (body : Bytes) (i : ℕ) : Type 0 where
  pub name_NoNul : NoNul (take i body)
  pub name_length : length (take i body) ≡ i
  pub joined : body ≡ take i body ++ 0 ∷ drop (suc i) body

pub find_nul-Splits : (body : Bytes) (i : ℕ) → find_nul body ≡ some i → Splits body i
unfolding find_nul
find_nul-Splits [] i h = cc
find_nul-Splits (b ∷ bs) zero h = ground arith
find_nul-Splits (b ∷ bs) (suc i) h = ground (arith, find_nul-Splits bs i)

pub c_string-append : (name rest : Bytes) → NoNul name → c_string (name ++ 0 ∷ rest) ≡ name
unfolding c_string
c_string-append name rest h =
    rw (find_nul-append name rest h, c_string) (take-length-append name (0 ∷ rest))
