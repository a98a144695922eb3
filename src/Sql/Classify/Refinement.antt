-- ===== src/Sql/Classify/Refinement.antt =====
-- What a classification says of the text, and that it comes to an end.
use pgfox.Prelude.{
  true, false, Bool-cases, inl, inr, if◌then◌else◌, Option, none, some, List, [], ◌∷◌, map, ◌≡◌,
  ◌≢◌, refl, subst, branches,
}
use pgfox.Prelude.Bytes.{Bytes}
use pgfox.Prelude.Result.{Result, ok, err}
use pgfox.Session.Query.{
  Command, other_command, listen_command, unlisten_command, notify_command, Parameterized,
}
use pgfox.Sql.Scan.{LiteralValue}
use pgfox.Sql.Scan.Progress.{not_both}
use pgfox.Sql.Tree.{Node, is_dml_statement, contains_param, collect_literals}
use pgfox.Sql.Rewrite.{Failure, unlocated, slice_panic, cut_off, rewrite_literals}
use pgfox.Sql.Rewrite.Substitution.{
  Rewritten, Substituted, rest_of_text, rewrite_literals-Rewritten,
}
use pgfox.Sql.Classify.{
  query_hash, result_of, classify_stmt, settle, parameterize_literals, parameterize, classify_only,
  classify_list, trim_cutset, is_blank, classify_and_parameterize,
}

-- The literals that a statement is to give up: those that `collectLiterals` finds in its tree, in
-- order, or none where the statement has parameters of its own.
unfoldable pub literals_of : Node → List LiteralValue
literals_of stmt = if contains_param stmt then [] else collect_literals stmt false

module _ (sha256 : Bytes → Bytes) where
  -- The canonical text is the text with the literals replaced in order, the values are theirs,
  -- and the hash is that of the canonical text.
  pub record Replaces (text : Bytes) (lits : List LiteralValue) (p : Parameterized) : Type 0 where
    pub values_lem : p.values ≡ map (λ lit. lit.value) lits
    pub substituted : Substituted 0 lits text p.canonical_sql
    pub hash_lem : p.hash ≡ query_hash sha256 p.canonical_sql

  untouched : (text : Bytes) → Replaces text [] (result_of sha256 text [])
  untouched text = record { values_lem = refl; substituted = rest_of_text 0 text; hash_lem = refl }

  abbrev Settled : Bytes → List LiteralValue → Result Failure (Option Parameterized) → Type 0
  Settled text lits (ok none) = Unit {0}
  Settled text lits (ok (some p)) = Replaces text lits p
  Settled text lits (err (unlocated value)) = Unit {0}
  Settled text lits (err slice_panic) = Unit {0}
  Settled text lits (err cut_off) = true ≡ false

  settle-Settled :
      (text : Bytes) (lits : List LiteralValue) (r : Result Failure (Bytes × List Bytes))
      → Rewritten 0 lits text r
      → Settled text lits (settle sha256 r)
  unfolding settle
  settle-Settled text lits (ok (canonical, values)) (eq, sub) = record {
    values_lem = eq;
    substituted = sub;
    hash_lem = refl;
  }
  settle-Settled text lits (err (unlocated value)) h = tt
  settle-Settled text lits (err slice_panic) h = tt
  settle-Settled text lits (err cut_off) h = h

  parameterize_literals-Settled :
      (text : Bytes) (lits : List LiteralValue)
      → Settled text lits (parameterize_literals sha256 text lits)
  unfolding parameterize_literals
  parameterize_literals-Settled text [] = untouched text
  parameterize_literals-Settled text (lit ∷ lits) =
      settle-Settled text (lit ∷ lits) (rewrite_literals text (lit ∷ lits))
        (rewrite_literals-Rewritten text (lit ∷ lits))

  parameterize-Settled :
      (text : Bytes) (stmt : Node)
      → is_dml_statement stmt ≡ true
      → Settled text (literals_of stmt) (parameterize sha256 text stmt)
  unfolding parameterize literals_of
  parameterize-Settled text stmt dml = elim (Bool-cases (contains_param stmt)) [
    | inl has ↦ rw (dml, has) (untouched text)
    | inr has_not ↦
        rw (dml, has_not) (parameterize_literals-Settled text (collect_literals stmt false))
  ]

  abbrev Sound : Bytes → Node → Result Failure (Option Parameterized) → Type 0
  Sound text stmt (ok none) = Unit {0}
  Sound text stmt (ok (some p)) =
      (is_dml_statement stmt ≡ true) × Replaces text (literals_of stmt) p
  Sound text stmt (err (unlocated value)) = Unit {0}
  Sound text stmt (err slice_panic) = Unit {0}
  Sound text stmt (err cut_off) = true ≡ false

  with_dml :
      (text : Bytes) (stmt : Node) (r : Result Failure (Option Parameterized))
      → is_dml_statement stmt ≡ true
      → Settled text (literals_of stmt) r
      → Sound text stmt r
  with_dml text stmt (ok none) dml h = tt
  with_dml text stmt (ok (some p)) dml h = (dml, h)
  with_dml text stmt (err (unlocated value)) dml h = tt
  with_dml text stmt (err slice_panic) dml h = tt
  with_dml text stmt (err cut_off) dml h = h

  parameterize-Sound :
      (text : Bytes) (stmt : Node) → Sound text stmt (parameterize sha256 text stmt)
  unfolding parameterize
  parameterize-Sound text stmt = elim (Bool-cases (is_dml_statement stmt)) [
    | inl dml ↦
        with_dml text stmt (parameterize sha256 text stmt) dml (parameterize-Settled text stmt dml)
    | inr other ↦ rw (other, parameterize) tt
  ]

module _ (parse : Bytes → Option (List Node)) (sha256 : Bytes → Bytes) where
  -- The text is one DML statement, whose literals are those replaced.
  pub record Describes (text : Bytes) (p : Parameterized) : Type 0 where
    pub stmt : Node
    pub parsed : parse text ≡ some (stmt ∷ [])
    pub is_dml : is_dml_statement stmt ≡ true
    pub replaces : Replaces sha256 text (literals_of stmt) p

  abbrev Classified : Bytes → Result Failure (Command × Option Parameterized) → Type 0
  Classified text (ok (command, none)) = Unit {0}
  Classified text (ok (command, some p)) = (command ≡ other_command) × Describes text p
  Classified text (err (unlocated value)) = Unit {0}
  Classified text (err slice_panic) = Unit {0}
  Classified text (err cut_off) = true ≡ false

  classify_only-Classified :
      (text : Bytes) (stmt : Node) (command : Command) (r : Result Failure (Option Parameterized))
      → parse text ≡ some (stmt ∷ [])
      → Sound sha256 text stmt r
      → Classified text (classify_only command r)
  unfolding classify_only
  classify_only-Classified text stmt other_command (ok none) e h = tt
  classify_only-Classified text stmt other_command (ok (some p)) e h =
      (refl, record { stmt = stmt; parsed = e; is_dml = h.0; replaces = h.1 })
  classify_only-Classified text stmt other_command (err (unlocated value)) e h = tt
  classify_only-Classified text stmt other_command (err slice_panic) e h = tt
  classify_only-Classified text stmt other_command (err cut_off) e h = h
  classify_only-Classified text stmt listen_command r e h = tt
  classify_only-Classified text stmt unlisten_command r e h = tt
  classify_only-Classified text stmt notify_command r e h = tt

module _ (parse : Bytes → Option (List Node)) (sha256 trim_space to_upper : Bytes → Bytes) where
  classify_list-Classified :
      (text : Bytes) (stmts : Option (List Node))
      → parse text ≡ stmts
      → Classified parse sha256 text (classify_list parse sha256 trim_space to_upper text stmts)
  unfolding classify_list
  classify_list-Classified text none e = tt
  classify_list-Classified text (some []) e = tt
  classify_list-Classified text (some (stmt ∷ [])) e =
      classify_only-Classified parse sha256 text stmt (classify_stmt to_upper text stmt)
        (parameterize sha256 text stmt) e (parameterize-Sound sha256 text stmt)
  classify_list-Classified text (some (stmt ∷ other ∷ stmts)) e = tt

  classify-Classified :
      (sql : Bytes)
      → Classified parse sha256
          (trim_cutset (trim_space sql))
          (classify_and_parameterize parse sha256 trim_space to_upper sql)
  unfolding classify_and_parameterize
  classify-Classified sql =
      let text = trim_cutset (trim_space sql) in
      branches (Classified parse sha256 text) (is_blank (trim_space sql)) tt
        (classify_list-Classified text (parse text) refl)

  -- Classifying a query comes to an end: the fuel of no search in it runs out.
  pub classify_and_parameterize-ends :
      (sql : Bytes) → classify_and_parameterize parse sha256 trim_space to_upper sql ≢ err cut_off
  classify_and_parameterize-ends sql eq =
      not_both (
        subst (Classified parse sha256 (trim_cutset (trim_space sql))) eq (classify-Classified sql))
