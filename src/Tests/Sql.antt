-- ===== src/Tests/Sql.antt =====
-- The rewriting of short queries. SHA-256, the trimming and the upper case are the identity here,
-- and the parser knows one statement.
use pgfox.Prelude.{true, false, Option, some, List, [], ◌∷◌, ◌≡◌, ◌≢◌, refl, arith, All}
use pgfox.Prelude.Bytes.{Bytes, codes, equal}
use pgfox.Prelude.Result.{ok}
use pgfox.Session.Query.{Parameterized}
use pgfox.Sql.Tokens.{read_number, read_digits, read_fraction, read_exponent}
use pgfox.Sql.Decimal.{pos, decimal}
use pgfox.Sql.Suffix.{IsSuffix}
use pgfox.Sql.Tree.{
  Node, a_const, a_expr, select_stmt, res_target, nil, item, end, integer, string, is_dml_statement,
  contains_param, collect_literals, collect_constant,
}
use pgfox.Sql.Tree.Limits.{texts, HasNoStatement, collect_literals-structural}
use pgfox.Sql.Scan.{
  LiteralValue, lit_int, found, out_of_fuel, find_next_literal, advance, try_match, compare_token,
  compare_int, has_fraction, pass_over,
}
use pgfox.Sql.Scan.Progress.{find_next_literal-ends}
use pgfox.Sql.Scan.Hits.{Occurs, find_next_literal-found}
use pgfox.Sql.Rewrite.{placeholder}
use pgfox.Sql.Rewrite.Strings.{
  Piece, weave, with_holes, IsGapped, is_gap, is_plain, is_prefix_byte, literals, values_of,
}
use pgfox.Sql.Classify.{result_of, parameterize}
use pgfox.Sql.Classify.Canonical.{parameterize-shares_key}

abbrev five : LiteralValue
five = record { kind = lit_int; value = codes "5" }

find_next_literal-ends_example : find_next_literal 4 five (codes "a 5") ≢ out_of_fuel
find_next_literal-ends_example = find_next_literal-ends 4 five (codes "a 5") (omega arith)

five-found : find_next_literal 4 five (codes "a 5;") ≡ found (codes "5;") (codes ";")
unfolding find_next_literal advance try_match pass_over compare_int compare_token has_fraction
    read_number read_digits read_fraction read_exponent equal
five-found = refl

find_next_literal-found_example :
    IsSuffix (codes "5;") (codes "a 5;") × Occurs five (codes "5;") (codes ";")
find_next_literal-found_example =
    find_next_literal-found 4 five (codes "a 5;") (codes "5;") (codes ";") five-found

abbrev ann_query : List Piece
ann_query = (codes "SELECT ", codes "ann") ∷ (codes ", ", codes "o'neil") ∷ []

abbrev bob_query : List Piece
bob_query = (codes "SELECT ", codes "bob") ∷ (codes ", ", codes "$1") ∷ []

ann-IsGapped : All IsGapped ann_query
unfolding is_gap is_plain is_prefix_byte
ann-IsGapped = (refl, (refl, tt))

bob-IsGapped : All IsGapped bob_query
unfolding is_gap is_plain is_prefix_byte
bob-IsGapped = (refl, (refl, tt))

ann-canonical : with_holes 0 ann_query (codes ";") ≡ codes "SELECT $1, $2;"
unfolding with_holes placeholder decimal
ann-canonical = refl

abbrev constant : Bytes → Node
constant text = res_target (a_const (string text))

abbrev select : Bytes → Bytes → Node
select a b =
    select_stmt (item (constant a) (item (constant b) end)) end nil end nil end nil nil nil nil

select-facts :
    (a b : Bytes)
    → (is_dml_statement (select a b) ≡ true)
      × (contains_param (select a b) ≡ false)
      × (collect_literals (select a b) false ≡ literals ((codes "x", a) ∷ (codes "y", b) ∷ []))
unfolding is_dml_statement contains_param collect_literals collect_constant
select-facts a b = (refl, refl, refl)

parameterize-shares_key_example :
    (parameterize (λ s. s) (weave ann_query (codes ";")) (select (codes "ann") (codes "o'neil"))
      ≡ ok (some (result_of (λ s. s) (with_holes 0 ann_query (codes ";")) (values_of ann_query))))
    × (parameterize (λ s. s) (weave bob_query (codes ";")) (select (codes "bob") (codes "$1"))
        ≡ ok (some (result_of (λ s. s) (with_holes 0 ann_query (codes ";")) (values_of bob_query))))
parameterize-shares_key_example =
    parameterize-shares_key (λ s. s) ann_query bob_query (codes ";")
      (select (codes "ann") (codes "o'neil")) (select (codes "bob") (codes "$1"))
      (select-facts (codes "ann") (codes "o'neil")) (select-facts (codes "bob") (codes "$1"))
      ann-IsGapped bob-IsGapped (ground arith) refl

abbrev parsed : Bytes → Option (List Node)
parsed sql = some (select (codes "a") (codes "b") ∷ [])

abbrev ab_result : Parameterized
ab_result = result_of (λ s. s) (codes "SELECT $1,$2") (codes "a" ∷ codes "b" ∷ [])

abbrev limit : Node
limit = a_expr (a_const (integer (pos 5))) (a_const (string (codes "6")))

limit-HasNoStatement : HasNoStatement limit
unfolding HasNoStatement
limit-HasNoStatement = (tt, tt)

collect_literals-structural_example :
    collect_literals limit true ≡ texts (collect_literals limit false)
collect_literals-structural_example = collect_literals-structural limit limit-HasNoStatement
