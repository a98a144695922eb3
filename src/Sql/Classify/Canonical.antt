-- ===== src/Sql/Classify/Canonical.antt =====
-- The key of the statement cache: which queries share a canonical form, and what a result says of
-- the text.
use pgfox.Prelude.{
  ℕ, suc, true, false, some, List, [], ◌∷◌, map, ◌≡◌, refl, sym, ap, ◌∙◌, arith, All,
}
use pgfox.Prelude.Bytes.{Bytes}
use pgfox.Prelude.Result.{ok}
use pgfox.Sql.Tokens.Strings.{NoQuote}
use pgfox.Sql.Tree.{Node, is_dml_statement, contains_param, collect_literals}
use pgfox.Sql.Rewrite.Strings.{
  Piece, weave, with_holes, IsGapped, literals, values_of, rewrite_literals-weave,
}
use pgfox.Sql.Classify.{result_of, settle, parameterize_literals, parameterize}

-- The gaps alone decide the text with parameters.
with_holes-gaps :
    (n : ℕ) (pieces others : List Piece) (tail : Bytes)
    → map (λ p. p.0) pieces ≡ map (λ p. p.0) others
    → with_holes n pieces tail ≡ with_holes n others tail
unfolding with_holes
with_holes-gaps n [] [] tail eq = refl
with_holes-gaps n [] (p ∷ others) tail eq = ground (arith, eq)
with_holes-gaps n (p ∷ pieces) [] tail eq = ground (arith, eq)
with_holes-gaps n ((g, v) ∷ pieces) ((h, w) ∷ others) tail eq =
    ground (arith, eq, with_holes-gaps (suc n) pieces others tail)

module _ (sha256 : Bytes → Bytes) where
  parameterize_literals-weave :
      (pieces : List Piece) (tail : Bytes)
      → All IsGapped pieces
      → NoQuote tail
      → parameterize_literals sha256 (weave pieces tail) (literals pieces)
        ≡ ok (some (result_of sha256 (with_holes 0 pieces tail) (values_of pieces)))
  unfolding parameterize_literals with_holes weave
  parameterize_literals-weave [] tail all q = refl
  parameterize_literals-weave (p ∷ pieces) tail all q =
      ap (settle sha256) (rewrite_literals-weave (p ∷ pieces) tail all q)

  -- A statement without parameters whose literals are strings in its text, from left to right, is
  -- registered under the text with `$1`, `$2`, … for them, with their values, whatever these are.
  -- A gap is not empty, holds no quote, `"`, `$`, `-` or `/`, and does not end in the letter of a
  -- string prefix; the text behind the last string begins with no quote.
  pub parameterize-weave :
      (pieces : List Piece) (tail : Bytes) (stmt : Node)
      → is_dml_statement stmt ≡ true
      → contains_param stmt ≡ false
      → collect_literals stmt false ≡ literals pieces
      → All IsGapped pieces
      → NoQuote tail
      → parameterize sha256 (weave pieces tail) stmt
        ≡ ok (some (result_of sha256 (with_holes 0 pieces tail) (values_of pieces)))
  unfolding parameterize
  parameterize-weave pieces tail stmt dml no_param lits all q =
      rw (dml, no_param, lits, parameterize_literals-weave pieces tail all q)

  -- Queries that differ only in strings between quotes share their key in the statement cache:
  -- what is registered for the one has the canonical SQL, and so the hash, of what is registered
  -- for the other, with its own values. Both statements have no parameters, and their literals are
  -- the strings, from left to right. The gaps in front of the strings are the same, and so is the
  -- text behind the last one. A gap is not empty, holds no quote, `"`, `$`, `-` or `/`, and does not
  -- end in the letter of a string prefix; the text behind begins with no quote.
  pub parameterize-shares_key :
      (pieces others : List Piece) (tail : Bytes) (a b : Node)
      → (is_dml_statement a ≡ true)
        × (contains_param a ≡ false)
        × (collect_literals a false ≡ literals pieces)
      → (is_dml_statement b ≡ true)
        × (contains_param b ≡ false)
        × (collect_literals b false ≡ literals others)
      → All IsGapped pieces
      → All IsGapped others
      → NoQuote tail
      → map (λ p. p.0) pieces ≡ map (λ p. p.0) others
      → (parameterize sha256 (weave pieces tail) a
          ≡ ok (some (result_of sha256 (with_holes 0 pieces tail) (values_of pieces))))
        × (parameterize sha256 (weave others tail) b
            ≡ ok (some (result_of sha256 (with_holes 0 pieces tail) (values_of others))))
  parameterize-shares_key pieces others tail a b (dml_a, no_a, lits_a) (dml_b, no_b, lits_b) ga gb q
        eq =
      (
        parameterize-weave pieces tail a dml_a no_a lits_a ga q,
        parameterize-weave others tail b dml_b no_b lits_b gb q
            ∙ ap (λ canonical. ok (some (result_of sha256 canonical (values_of others))))
                (sym (with_holes-gaps 0 pieces others tail eq)),
      )
