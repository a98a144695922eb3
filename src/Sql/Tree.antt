-- ===== src/Sql/Tree.antt =====
-- What pkg/pgfox/parser.go reads of the syntax tree that the parser of PostgreSQL's grammar gives:
-- the node types that its switches name, with the fields that they read, `other_node` for every
-- other type, and `nil` for a nil interface or a nil pointer, which they treat alike.
pub mod Limits
use pgfox.Prelude.{ℕ, Bool, true, false, ◌||◌, List, [], ◌∷◌, ◌++◌, if◌then◌else◌}
use pgfox.Prelude.Bytes.{Bytes}
use pgfox.Sql.Decimal.{ℤ, decimal_int}
use pgfox.Sql.Scan.{LiteralValue, LitKind, lit_string, lit_int, lit_float, lit_bit_str}

-- `A_Const`: `Isnull`, or the `Val`.
pub data Constant : Type 0 where
  null : Constant
  boolean : Constant
  integer : ℤ → Constant
  float : Bytes → Constant
  string : Bytes → Constant
  bit_string : Bytes → Constant
  other_value : Constant

mutual
  pub data Node : Type 0 where
    nil : Node
    param_ref : Node
    a_const : Constant → Node
    -- `TargetList`, `FromClause`, `WhereClause`, `GroupClause`, `HavingClause`, `ValuesLists`,
    -- `Larg`, `Rarg`, `LimitOffset`, `LimitCount`
    select_stmt : Nodes → Nodes → Node → Nodes → Node → Nodes → Node → Node → Node → Node → Node
    insert_stmt : Node → Node
    -- `TargetList`, `WhereClause`
    update_stmt : Nodes → Node → Node
    delete_stmt : Node → Node
    a_expr : Node → Node → Node
    func_call : Nodes → Node
    res_target : Node → Node
    list : Nodes → Node
    sub_link : Node → Node
    type_cast : Node → Node
    bool_expr : Nodes → Node
    -- `Arg`, `Args`, `Defresult`
    case_expr : Node → Nodes → Node → Node
    -- `Expr`, `Result`
    case_when : Node → Node → Node
    coalesce_expr : Nodes → Node
    null_test : Node → Node
    row_expr : Nodes → Node
    array_expr : Nodes → Node
    range_subselect : Node → Node
    -- `Larg`, `Rarg`, `Quals`
    join_expr : Node → Node → Node → Node
    sort_by : Node → Node
    -- `PartitionClause`, `OrderClause`
    window_def : Nodes → Nodes → Node
    listen_stmt : Node
    unlisten_stmt : Node
    notify_stmt : Node
    other_node : Node

  -- `List.Items`; a nil list is as an empty one.
  pub data Nodes : Type 0 where
    end : Nodes
    item : Node → Nodes → Nodes

unfoldable pub is_dml_statement : Node → Bool
is_dml_statement (select_stmt targets froms condition groups having rows larg rarg offset count) =
    true
is_dml_statement (insert_stmt select) = true
is_dml_statement (update_stmt targets condition) = true
is_dml_statement (delete_stmt condition) = true
is_dml_statement _ = false

-- `containsParam` and `listHasParam`.
unfoldable mutual
  pub contains_param : Node → Bool
  contains_param param_ref = true
  contains_param (select_stmt targets froms condition groups having rows larg rarg offset count) =
      list_has_param targets
      || contains_param condition
      || list_has_param groups
      || contains_param having
      || list_has_param rows
      || list_has_param froms
  contains_param (insert_stmt select) = contains_param select
  contains_param (update_stmt targets condition) =
      list_has_param targets || contains_param condition
  contains_param (delete_stmt condition) = contains_param condition
  contains_param (a_expr left right) = contains_param left || contains_param right
  contains_param (func_call args) = list_has_param args
  contains_param (res_target val) = contains_param val
  contains_param (list items) = list_has_param items
  contains_param (sub_link subselect) = contains_param subselect
  contains_param (type_cast arg) = contains_param arg
  contains_param (bool_expr args) = list_has_param args
  contains_param (case_expr arg args default) =
      contains_param arg || list_has_param args || contains_param default
  contains_param (case_when expr result) = contains_param expr || contains_param result
  contains_param (coalesce_expr args) = list_has_param args
  contains_param (null_test arg) = contains_param arg
  contains_param (row_expr args) = list_has_param args
  contains_param (array_expr elements) = list_has_param elements
  contains_param _ = false

  pub list_has_param : Nodes → Bool
  list_has_param end = false
  list_has_param (item node items) = contains_param node || list_has_param items

-- What an `A_Const` adds to `*out`.
unfoldable pub collect_constant : Constant → Bool → List LiteralValue
unfolding decimal_int
collect_constant (integer n) in_limit =
    if in_limit then [] else record { kind = lit_int; value = decimal_int n } ∷ []
collect_constant (float text) in_limit =
    if in_limit then [] else record { kind = lit_float; value = text } ∷ []
collect_constant (string text) in_limit = record { kind = lit_string; value = text } ∷ []
collect_constant (bit_string text) in_limit = record { kind = lit_bit_str; value = text } ∷ []
collect_constant _ in_limit = []

-- `collectLiterals` and `collectInList`: what they append to `*out`.
unfoldable mutual
  unfolding collect_constant

  pub collect_literals : Node → Bool → List LiteralValue
  collect_literals (a_const c) in_limit = collect_constant c in_limit
  collect_literals (select_stmt targets froms condition groups having rows larg rarg offset count)
        in_limit =
      collect_in_list targets false
      ++ collect_in_list froms false
      ++ collect_literals condition false
      ++ collect_in_list groups false
      ++ collect_literals having false
      ++ collect_in_list rows false
      ++ collect_literals larg false
      ++ collect_literals rarg false
      ++ collect_literals offset true
      ++ collect_literals count true
  collect_literals (insert_stmt select) in_limit = collect_literals select false
  collect_literals (update_stmt targets condition) in_limit =
      collect_in_list targets false ++ collect_literals condition false
  collect_literals (delete_stmt condition) in_limit = collect_literals condition false
  collect_literals (a_expr left right) in_limit =
      collect_literals left in_limit ++ collect_literals right in_limit
  collect_literals (func_call args) in_limit = collect_in_list args in_limit
  collect_literals (res_target val) in_limit = collect_literals val in_limit
  collect_literals (list items) in_limit = collect_in_list items in_limit
  collect_literals (sub_link subselect) in_limit = collect_literals subselect in_limit
  collect_literals (type_cast arg) in_limit = collect_literals arg in_limit
  collect_literals (bool_expr args) in_limit = collect_in_list args in_limit
  collect_literals (case_expr arg args default) in_limit =
      collect_literals arg in_limit
      ++ collect_in_list args in_limit
      ++ collect_literals default in_limit
  collect_literals (case_when expr result) in_limit =
      collect_literals expr in_limit ++ collect_literals result in_limit
  collect_literals (coalesce_expr args) in_limit = collect_in_list args in_limit
  collect_literals (null_test arg) in_limit = collect_literals arg in_limit
  collect_literals (row_expr args) in_limit = collect_in_list args in_limit
  collect_literals (array_expr elements) in_limit = collect_in_list elements in_limit
  collect_literals (range_subselect subquery) in_limit = collect_literals subquery in_limit
  collect_literals (join_expr larg rarg quals) in_limit =
      collect_literals larg in_limit
      ++ collect_literals rarg in_limit
      ++ collect_literals quals in_limit
  collect_literals (sort_by node) in_limit = collect_literals node in_limit
  collect_literals (window_def partition_clause order_clause) in_limit =
      collect_in_list partition_clause false ++ collect_in_list order_clause false
  collect_literals _ in_limit = []

  pub collect_in_list : Nodes → Bool → List LiteralValue
  collect_in_list end in_limit = []
  collect_in_list (item node items) in_limit =
      collect_literals node in_limit ++ collect_in_list items in_limit
