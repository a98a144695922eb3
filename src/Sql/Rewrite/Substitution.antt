-- ===== src/Sql/Rewrite/Substitution.antt =====
-- What `rewriteLiterals` replaces, as a relation between the text and its canonical form.
use pgfox.Prelude.{
  ℕ, suc, List, [], ◌∷◌, ◌++◌, map, ◌≡◌, ◌≢◌, refl, sym, ap, subst, ◌∙◌, arith, take, length,
  length-append, take-length-append, true, false,
}
use pgfox.Prelude.Bytes.{Bytes}
use pgfox.Prelude.Result.{Result, ok, err, ◌>>=◌}
use pgfox.Sql.Suffix.{IsSuffix, at, behind}
use pgfox.Sql.Scan.{LiteralValue, Found, found, missing, panicked, out_of_fuel, find_next_literal}
use pgfox.Sql.Scan.Progress.{Ended, not_both, find_next_literal-Ended}
use pgfox.Sql.Scan.Hits.{Occurs, Located, find_next_literal-Located}
use pgfox.Sql.Rewrite.{
  Failure, unlocated, slice_panic, cut_off, before, placeholder, locate, rewrite_from,
  rewrite_literals,
}

-- `Substituted n lits src out`: `out` is `src` with tokens of the literals `lits`, in their order,
-- replaced by the parameters from `n + 1` on.
pub data Substituted : ℕ → List LiteralValue → Bytes → Bytes → Type 0 where
  rest_of_text : (n : ℕ) (src : Bytes) → Substituted n [] src src
  replaced :
      (n : ℕ) (gap start end out : Bytes) (lit : LiteralValue) (lits : List LiteralValue)
      → Occurs lit start end
      → Substituted (suc n) lits end out
      → Substituted n (lit ∷ lits) (gap ++ start) (gap ++ placeholder (suc n) ++ out)

prefix_of : {end src : Bytes} → IsSuffix end src → Bytes
prefix_of at = []
prefix_of (behind c h) = c ∷ prefix_of h

prefix_of-append : {end src : Bytes} (h : IsSuffix end src) → prefix_of h ++ end ≡ src
unfolding prefix_of
prefix_of-append at = refl
prefix_of-append (behind c h) = ap (◌∷◌ c) (prefix_of-append h)

pub before-append : (gap end : Bytes) → before (gap ++ end) end ≡ gap
unfolding before
before-append gap end =
    ap (λ k. take k (gap ++ end)) (omega (arith, length-append gap end))
    ∙ take-length-append gap end

pub before-IsSuffix : {end src : Bytes} → IsSuffix end src → before src end ++ end ≡ src
before-IsSuffix {end} {src} h =
    ap (λ s. before s end ++ end) (sym (prefix_of-append h))
    ∙ ap (λ gap. gap ++ end) (before-append (prefix_of h) end)
    ∙ prefix_of-append h

-- What the loop gives.
abbrev pub Rewritten : ℕ → List LiteralValue → Bytes → Result Failure (Bytes × List Bytes) → Type 0
Rewritten n lits src (ok (out, values)) =
    (values ≡ map (λ lit. lit.value) lits) × Substituted n lits src out
Rewritten n lits src (err (unlocated value)) = Unit {0}
Rewritten n lits src (err slice_panic) = Unit {0}
Rewritten n lits src (err cut_off) = true ≡ false

abbrev Between : LiteralValue → Bytes → Result Failure (Bytes × Bytes) → Type 0
Between lit src (ok (start, end)) = IsSuffix start src × Occurs lit start end
Between lit src (err (unlocated value)) = Unit {0}
Between lit src (err slice_panic) = Unit {0}
Between lit src (err cut_off) = true ≡ false

located :
    (lit : LiteralValue) (src : Bytes) (f : Found)
    → Ended f
    → Located lit src f
    → Between lit src (elim f [
      | found start end ↦ ok (start, end)
      | missing ↦ err (unlocated lit.value)
      | panicked ↦ err slice_panic
      | out_of_fuel ↦ err cut_off
    ])
located lit src (found start end) e l = l
located lit src missing e l = tt
located lit src panicked e l = tt
located lit src out_of_fuel e l = e

locate-Between : (lit : LiteralValue) (src : Bytes) → Between lit src (locate lit src)
unfolding locate
locate-Between lit src =
    located lit src (find_next_literal (length src) lit src)
      (find_next_literal-Ended (length src) lit src (omega arith))
      (find_next_literal-Located (length src) lit src)

-- One round, before what the later ones give.
put_together :
    (n : ℕ) (src start end : Bytes) (lit : LiteralValue) (lits : List LiteralValue)
    (r : Result Failure (Bytes × List Bytes))
    → IsSuffix start src
    → Occurs lit start end
    → Rewritten (suc n) lits end r
    → Rewritten n (lit ∷ lits) src (
        r >>= λ (rest, values).
        ok (before src start ++ placeholder (suc n) ++ rest, lit.value ∷ values))
put_together n src start end lit lits (ok (rest, values)) h o (eq, sub) = (
  ap (◌∷◌ lit.value) eq,
  subst (λ s. Substituted n (lit ∷ lits) s (before src start ++ placeholder (suc n) ++ rest))
      (before-IsSuffix h) (replaced n (before src start) start end rest lit lits o sub),
)
put_together n src start end lit lits (err (unlocated value)) h o r = tt
put_together n src start end lit lits (err slice_panic) h o r = tt
put_together n src start end lit lits (err cut_off) h o r = r

round :
    (n : ℕ) (src : Bytes) (lit : LiteralValue) (lits : List LiteralValue)
    (l : Result Failure (Bytes × Bytes))
    → Between lit src l
    → ((end : Bytes) → Rewritten (suc n) lits end (rewrite_from (suc n) end lits))
    → Rewritten n (lit ∷ lits) src (
        l >>= λ (start, end). rewrite_from (suc n) end lits >>= λ (rest, values).
        ok (before src start ++ placeholder (suc n) ++ rest, lit.value ∷ values))
round n src lit lits (ok (start, end)) (h, o) ih =
    put_together n src start end lit lits (rewrite_from (suc n) end lits) h o (ih end)
round n src lit lits (err (unlocated value)) h ih = tt
round n src lit lits (err slice_panic) h ih = tt
round n src lit lits (err cut_off) h ih = h

rewrite_from-Rewritten :
    (n : ℕ) (src : Bytes) (lits : List LiteralValue)
    → Rewritten n lits src (rewrite_from n src lits)
unfolding rewrite_from
rewrite_from-Rewritten n src [] = (refl, rest_of_text n src)
rewrite_from-Rewritten n src (lit ∷ lits) =
    round n src lit lits (locate lit src) (locate-Between lit src)
      (λ end. rewrite_from-Rewritten (suc n) end lits)

pub rewrite_literals-Rewritten :
    (sql : Bytes) (lits : List LiteralValue) → Rewritten 0 lits sql (rewrite_literals sql lits)
unfolding rewrite_literals
rewrite_literals-Rewritten sql [] = (refl, rest_of_text 0 sql)
rewrite_literals-Rewritten sql (lit ∷ lits) = rewrite_from-Rewritten 0 sql (lit ∷ lits)

-- A rewritten text is the original with, from left to right, for each literal one token of its
-- kind that reads as its value replaced by the next parameter, from `$1` on, and nothing else
-- changed; and the values returned are those of the literals, in order.
pub rewrite_literals-Substituted :
    (sql out : Bytes) (lits : List LiteralValue) (values : List Bytes)
    → rewrite_literals sql lits ≡ ok (out, values)
    → (values ≡ map (λ lit. lit.value) lits) × Substituted 0 lits sql out
rewrite_literals-Substituted sql out lits values eq =
    subst (Rewritten 0 lits sql) eq (rewrite_literals-Rewritten sql lits)

-- The searches of a rewriting always come to an end: the fuel of none of them runs out.
pub rewrite_literals-ends :
    (sql : Bytes) (lits : List LiteralValue) → rewrite_literals sql lits ≢ err cut_off
rewrite_literals-ends sql lits eq =
    not_both (subst (Rewritten 0 lits sql) eq (rewrite_literals-Rewritten sql lits))
