-- ===== src/Sql/Rewrite.antt =====
-- `rewriteLiterals` of pkg/pgfox/parser.go: every literal in the text becomes a parameter.
pub mod Substitution
pub mod Strings
use pgfox.Prelude.{ℕ, zero, suc, ◌-◌, List, [], ◌∷◌, ◌++◌, take, length}
use pgfox.Prelude.Bytes.{Bytes}
use pgfox.Prelude.Result.{Result, ok, err, ◌>>=◌}
use pgfox.Sql.Decimal.{decimal}
use pgfox.Sql.Scan.{LiteralValue, Found, found, missing, panicked, out_of_fuel, find_next_literal}

-- Why a text is not rewritten: a literal of this value is not located, a slice out of range
-- panics, or the search is cut off, which it never is.
pub data Failure : Type 0 where
  unlocated : Bytes → Failure
  slice_panic : Failure
  cut_off : Failure

-- `src[pos:start]`
unfoldable pub before : Bytes → Bytes → Bytes
before pos start = take (length pos - length start) pos

-- `$N`
unfoldable pub placeholder : ℕ → Bytes
unfolding decimal
placeholder n = b'$' ∷ decimal n

unfoldable pub locate : LiteralValue → Bytes → Result Failure (Bytes × Bytes)
unfolding find_next_literal
locate lit pos = elim (find_next_literal (length pos) lit pos) [
  | found start end ↦ ok (start, end)
  | missing ↦ err (unlocated lit.value)
  | panicked ↦ err slice_panic
  | out_of_fuel ↦ err cut_off
]

-- The loop over the literals, with `paramIdx` and `pos`.
unfoldable pub rewrite_from : ℕ → Bytes → List LiteralValue → Result Failure (Bytes × List Bytes)
unfolding before placeholder locate
rewrite_from param_idx pos [] = ok (pos, [])
rewrite_from param_idx pos (lit ∷ lits) = do
  (start, end) ← locate lit pos
  (rest, values) ← rewrite_from (suc param_idx) end lits
  ok (before pos start ++ placeholder (suc param_idx) ++ rest, lit.value ∷ values)

unfoldable pub rewrite_literals : Bytes → List LiteralValue → Result Failure (Bytes × List Bytes)
unfolding rewrite_from
rewrite_literals sql [] = ok (sql, [])
rewrite_literals sql (lit ∷ lits) = rewrite_from 0 sql (lit ∷ lits)
