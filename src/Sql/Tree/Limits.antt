-- ===== src/Sql/Tree/Limits.antt =====
-- What `collectLiterals` leaves out under LIMIT and OFFSET.
use pgfox.Prelude.{
  Bool, true, false, List, [], ◌∷◌, ◌++◌, if◌then◌else◌, ◌≡◌, refl, sym, ap, ◌∙◌, arith,
}
use pgfox.Sql.Scan.{LiteralValue, LitKind, lit_string, lit_int, lit_float, lit_bit_str}
use pgfox.Sql.Tree.{
  Constant, null, boolean, integer, float, string, bit_string, other_value, Node, nil, param_ref,
  a_const, select_stmt, insert_stmt, update_stmt, delete_stmt, a_expr, func_call, res_target, list,
  sub_link, type_cast, bool_expr, case_expr, case_when, coalesce_expr, null_test, row_expr,
  array_expr, range_subselect, join_expr, sort_by, window_def, listen_stmt, unlisten_stmt,
  notify_stmt, other_node, Nodes, end, item, collect_constant, collect_literals, collect_in_list,
}

-- A literal between quotes.
abbrev pub is_text : LitKind → Bool
is_text lit_string = true
is_text lit_int = false
is_text lit_float = false
is_text lit_bit_str = true

unfoldable pub texts : List LiteralValue → List LiteralValue
texts [] = []
texts (lit ∷ lits) = let rest = texts lits in if is_text lit.kind then lit ∷ rest else rest

texts-first :
    (b : Bool) (lit : LiteralValue) (xs ys : List LiteralValue)
    → (if b then lit ∷ (xs ++ ys) else (xs ++ ys)) ≡ (if b then lit ∷ xs else xs) ++ ys
texts-first true lit xs ys = refl
texts-first false lit xs ys = refl

texts-append : (xs ys : List LiteralValue) → texts (xs ++ ys) ≡ texts xs ++ texts ys
unfolding texts
texts-append [] ys = refl
texts-append (lit ∷ xs) ys =
    ap (λ l. if is_text lit.kind then lit ∷ l else l) (texts-append xs ys)
    ∙ texts-first (is_text lit.kind) lit (texts xs) (texts ys)

-- Two and three parts, each filtered.
both :
    {a b : List LiteralValue} (c d : List LiteralValue)
    → a ≡ texts c
    → b ≡ texts d
    → a ++ b ≡ texts (c ++ d)
both {a} {b} c d h k = ap (λ x. x ++ b) h ∙ ap (λ y. texts c ++ y) k ∙ sym (texts-append c d)

-- No statement, which collects for itself, and no window stands in the expression.
unfoldable mutual
  pub HasNoStatement : Node → Type 0
  HasNoStatement (select_stmt targets froms condition groups having rows larg rarg offset count) =
      true ≡ false
  HasNoStatement (insert_stmt select) = true ≡ false
  HasNoStatement (update_stmt targets condition) = true ≡ false
  HasNoStatement (delete_stmt condition) = true ≡ false
  HasNoStatement (window_def partition_clause order_clause) = true ≡ false
  HasNoStatement nil = Unit
  HasNoStatement param_ref = Unit
  HasNoStatement (a_const c) = Unit
  HasNoStatement listen_stmt = Unit
  HasNoStatement unlisten_stmt = Unit
  HasNoStatement notify_stmt = Unit
  HasNoStatement other_node = Unit
  HasNoStatement (func_call args) = ListsNoStatement args
  HasNoStatement (res_target val) = HasNoStatement val
  HasNoStatement (list items) = ListsNoStatement items
  HasNoStatement (sub_link subselect) = HasNoStatement subselect
  HasNoStatement (type_cast arg) = HasNoStatement arg
  HasNoStatement (bool_expr args) = ListsNoStatement args
  HasNoStatement (coalesce_expr args) = ListsNoStatement args
  HasNoStatement (null_test arg) = HasNoStatement arg
  HasNoStatement (row_expr args) = ListsNoStatement args
  HasNoStatement (array_expr elements) = ListsNoStatement elements
  HasNoStatement (range_subselect subquery) = HasNoStatement subquery
  HasNoStatement (sort_by node) = HasNoStatement node
  HasNoStatement (a_expr left right) = HasNoStatement left × HasNoStatement right
  HasNoStatement (case_when expr result) = HasNoStatement expr × HasNoStatement result
  HasNoStatement (case_expr arg args default) =
      HasNoStatement arg × ListsNoStatement args × HasNoStatement default
  HasNoStatement (join_expr larg rarg quals) =
      HasNoStatement larg × HasNoStatement rarg × HasNoStatement quals

  pub ListsNoStatement : Nodes → Type 0
  ListsNoStatement end = Unit
  ListsNoStatement (item node items) = HasNoStatement node × ListsNoStatement items

collect_constant-limit : (c : Constant) → collect_constant c true ≡ texts (collect_constant c false)
unfolding collect_constant texts
collect_constant-limit null = refl
collect_constant-limit boolean = refl
collect_constant-limit (integer n) = refl
collect_constant-limit (float text) = refl
collect_constant-limit (string text) = refl
collect_constant-limit (bit_string text) = refl
collect_constant-limit other_value = refl

mutual
  unfolding collect_literals HasNoStatement texts

  collect_literals-limit :
      (node : Node)
      → HasNoStatement node
      → collect_literals node true ≡ texts (collect_literals node false)
  collect_literals-limit
        (select_stmt targets froms condition groups having rows larg rarg offset count) h =
      ground (arith, h)
  collect_literals-limit (insert_stmt select) h = ground (arith, h)
  collect_literals-limit (update_stmt targets condition) h = ground (arith, h)
  collect_literals-limit (delete_stmt condition) h = ground (arith, h)
  collect_literals-limit (window_def partition_clause order_clause) h = ground (arith, h)
  collect_literals-limit nil h = refl
  collect_literals-limit param_ref h = refl
  collect_literals-limit (a_const c) h = collect_constant-limit c
  collect_literals-limit listen_stmt h = refl
  collect_literals-limit unlisten_stmt h = refl
  collect_literals-limit notify_stmt h = refl
  collect_literals-limit other_node h = refl
  collect_literals-limit (func_call args) h = collect_in_list-limit args h
  collect_literals-limit (res_target val) h = collect_literals-limit val h
  collect_literals-limit (list items) h = collect_in_list-limit items h
  collect_literals-limit (sub_link subselect) h = collect_literals-limit subselect h
  collect_literals-limit (type_cast arg) h = collect_literals-limit arg h
  collect_literals-limit (bool_expr args) h = collect_in_list-limit args h
  collect_literals-limit (coalesce_expr args) h = collect_in_list-limit args h
  collect_literals-limit (null_test arg) h = collect_literals-limit arg h
  collect_literals-limit (row_expr args) h = collect_in_list-limit args h
  collect_literals-limit (array_expr elements) h = collect_in_list-limit elements h
  collect_literals-limit (range_subselect subquery) h = collect_literals-limit subquery h
  collect_literals-limit (sort_by node) h = collect_literals-limit node h
  collect_literals-limit (a_expr left right) (h, k) =
      both (collect_literals left false) (collect_literals right false)
        (collect_literals-limit left h) (collect_literals-limit right k)
  collect_literals-limit (case_when expr result) (h, k) =
      both (collect_literals expr false) (collect_literals result false)
        (collect_literals-limit expr h) (collect_literals-limit result k)
  collect_literals-limit (case_expr arg args default) (h, k, m) =
      both (collect_literals arg false ++ collect_in_list args false)
        (collect_literals default false)
        (both (collect_literals arg false) (collect_in_list args false)
          (collect_literals-limit arg h) (collect_in_list-limit args k))
        (collect_literals-limit default m)
  collect_literals-limit (join_expr larg rarg quals) (h, k, m) =
      both (collect_literals larg false ++ collect_literals rarg false)
        (collect_literals quals false)
        (both (collect_literals larg false) (collect_literals rarg false)
          (collect_literals-limit larg h) (collect_literals-limit rarg k))
        (collect_literals-limit quals m)

  collect_in_list-limit :
      (items : Nodes)
      → ListsNoStatement items
      → collect_in_list items true ≡ texts (collect_in_list items false)
  collect_in_list-limit end h = refl
  collect_in_list-limit (item node items) (h, k) =
      both (collect_literals node false) (collect_in_list items false)
        (collect_literals-limit node h) (collect_in_list-limit items k)

-- Under LIMIT and OFFSET the literals of an expression are those that it has elsewhere, in their
-- order, without the numbers, if no statement and no window stands in it.
pub collect_literals-structural :
    (node : Node)
    → HasNoStatement node
    → collect_literals node true ≡ texts (collect_literals node false)
collect_literals-structural node h = collect_literals-limit node h
