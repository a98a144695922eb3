-- ===== src/Sql/Classify.antt =====
-- `ClassifyAndParameterize` of pkg/pgfox/parser.go. The parser of SQL, SHA-256, and the functions of
-- `strings` that follow the Unicode tables are arguments.
pub mod Canonical
pub mod Refinement
use pgfox.Prelude.{
  ℕ, zero, suc, ◌+◌, ◌-◌, ◌/◌, ◌%◌, Bool, true, false, not, ◌&&◌, ◌||◌, Option, none, some, List,
  [], ◌∷◌, if◌then◌else◌, ltb, ◌==◌, take,
}
use pgfox.Prelude.Bytes.{Bytes, codes}
use pgfox.Prelude.Result.{Result, ok, err}
use pgfox.Session.Query.{
  Command, other_command, listen_command, unlisten_command, notify_command, Parameterized,
}
use pgfox.Sql.Tokens.{is_prefix}
use pgfox.Sql.Scan.{LiteralValue}
use pgfox.Sql.Tree.{
  Node, select_stmt, listen_stmt, unlisten_stmt, notify_stmt, is_dml_statement, contains_param,
  collect_literals,
}
use pgfox.Sql.Rewrite.{Failure, unlocated, slice_panic, cut_off, rewrite_literals}

abbrev is_cut : ℕ → Bool
is_cut c = c == b' ' || c == b'\t' || c == b'\n' || c == b'\r' || c == b';'

abbrev pub is_blank : Bytes → Bool
is_blank [] = true
is_blank (c ∷ rest) = false

-- `strings.TrimRight(sql, " \t\n\r;")`
unfoldable pub trim_cutset : Bytes → Bytes
trim_cutset [] = []
trim_cutset (c ∷ rest) =
    let kept = trim_cutset rest in if is_blank kept && is_cut c then [] else c ∷ kept

-- `strings.ReplaceAll(s, " ", "")`
unfoldable pub without_spaces : Bytes → Bytes
without_spaces [] = []
without_spaces (c ∷ rest) = let kept = without_spaces rest in if c == b' ' then kept else c ∷ kept

unfoldable pub contains : Bytes → Bytes → Bool
contains part [] = is_prefix part []
contains part (c ∷ rest) = is_prefix part (c ∷ rest) || contains part rest

abbrev hex_digit : ℕ → ℕ
hex_digit d = if ltb d 10 then b'0' + d else b'a' + (d - 10)

-- `fmt.Sprintf("%x", …)`
unfoldable pub hex : Bytes → Bytes
hex [] = []
hex (c ∷ rest) = hex_digit (c / 16) ∷ hex_digit (c % 16) ∷ hex rest

module _ (to_upper : Bytes → Bytes) where
  -- The classification of the only statement.
  unfoldable pub classify_stmt : Bytes → Node → Command
  unfolding without_spaces contains
  classify_stmt trimmed listen_stmt = listen_command
  classify_stmt trimmed unlisten_stmt = unlisten_command
  classify_stmt trimmed notify_stmt = notify_command
  classify_stmt trimmed
        (select_stmt targets froms condition groups having rows larg rarg offset count) =
      if contains (codes "PG_NOTIFY(") (to_upper (without_spaces trimmed))
      then notify_command
      else other_command
  classify_stmt trimmed _ = other_command

module _ (sha256 : Bytes → Bytes) where
  unfoldable pub query_hash : Bytes → Bytes
  unfolding hex
  query_hash canonical = hex (take 8 (sha256 canonical))

  abbrev pub result_of : Bytes → List Bytes → Parameterized
  result_of canonical values = record {
    hash = query_hash canonical;
    canonical_sql = canonical;
    values = values;
  }

  -- A text whose literals are not located is no result; a panic leaves the function.
  unfoldable pub settle :
      Result Failure (Bytes × List Bytes) → Result Failure (Option Parameterized)
  settle (ok (canonical, values)) = ok (some (result_of canonical values))
  settle (err (unlocated value)) = ok none
  settle (err slice_panic) = err slice_panic
  settle (err cut_off) = err cut_off

  unfoldable pub parameterize_literals :
      Bytes → List LiteralValue → Result Failure (Option Parameterized)
  unfolding settle rewrite_literals
  parameterize_literals trimmed [] = ok (some (result_of trimmed []))
  parameterize_literals trimmed (lit ∷ lits) = settle (rewrite_literals trimmed (lit ∷ lits))

  -- The attempt behind the classification.
  unfoldable pub parameterize : Bytes → Node → Result Failure (Option Parameterized)
  unfolding parameterize_literals collect_literals contains_param is_dml_statement
  parameterize trimmed stmt =
      if not (is_dml_statement stmt)
      then ok none
      else if contains_param stmt
      then ok (some (result_of trimmed []))
      else parameterize_literals trimmed (collect_literals stmt false)

unfoldable pub classify_only :
    Command
    → Result Failure (Option Parameterized)
    → Result Failure (Command × Option Parameterized)
classify_only other_command (ok result) = ok (other_command, result)
classify_only other_command (err failure) = err failure
classify_only listen_command result = ok (listen_command, none)
classify_only unlisten_command result = ok (unlisten_command, none)
classify_only notify_command result = ok (notify_command, none)

module _ (parse : Bytes → Option (List Node)) (sha256 trim_space to_upper : Bytes → Bytes) where
  unfoldable pub classify_list :
      Bytes → Option (List Node) → Result Failure (Command × Option Parameterized)
  unfolding classify_only classify_stmt parameterize
  classify_list trimmed none = ok (other_command, none)
  classify_list trimmed (some []) = ok (other_command, none)
  classify_list trimmed (some (stmt ∷ [])) =
      classify_only (classify_stmt to_upper trimmed stmt) (parameterize sha256 trimmed stmt)
  classify_list trimmed (some (stmt ∷ other ∷ stmts)) = ok (other_command, none)

  unfoldable pub classify_and_parameterize : Bytes → Result Failure (Command × Option Parameterized)
  unfolding trim_cutset classify_list
  classify_and_parameterize query =
      let sql = trim_space query in
      let trimmed = trim_cutset sql in
      if is_blank sql then ok (other_command, none) else classify_list trimmed (parse trimmed)
