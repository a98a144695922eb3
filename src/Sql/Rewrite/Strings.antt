-- ===== src/Sql/Rewrite/Strings.antt =====
-- The canonical form of a statement whose literals are strings between quotes.
use pgfox.Prelude.{
  ℕ, zero, suc, ◌<◌, Bool, true, false, not, ◌&&◌, ◌||◌, List, [], ◌∷◌, ◌++◌, map, if◌then◌else◌,
  ◌==◌, ◌≡◌, ◌≢◌, refl, ap, ◌∙◌, arith, length, length-append, All,
}
use pgfox.Prelude.Bytes.{Bytes, equal_refl}
use pgfox.Prelude.Result.{ok, err}
use pgfox.Sql.Tokens.Strings.{quote, NoQuote, read_quoted-quote}
use pgfox.Sql.Scan.{
  lit_string, LiteralValue, skip_to, hit, panics, starts_with, compare_token, pass_over, try_match,
  advance, found, missing, panicked, out_of_fuel, find_next_literal,
}
use pgfox.Sql.Rewrite.{
  unlocated, slice_panic, cut_off, placeholder, locate, rewrite_from, rewrite_literals,
}
use pgfox.Sql.Rewrite.Substitution.{before-append}

abbrev pub string_literal : Bytes → LiteralValue
string_literal v = record { kind = lit_string; value = v }

-- A byte that begins no string, comment or quoted identifier by itself.
unfoldable pub is_plain : ℕ → Bool
is_plain c = not (c == b'\'' || c == b'"' || c == b'$' || c == b'-' || c == b'/')

-- A byte that makes a prefix in front of a quote.
unfoldable pub is_prefix_byte : ℕ → Bool
is_prefix_byte c = c == b'E' || c == b'e' || c == b'B' || c == b'b' || c == b'X' || c == b'x'

-- What stands in front of a string literal: plain bytes, at least one, no prefix last.
unfoldable pub is_gap : Bytes → Bool
unfolding is_plain is_prefix_byte
is_gap [] = false
is_gap (c ∷ []) = is_plain c && not (is_prefix_byte c)
is_gap (c ∷ d ∷ rest) = is_plain c && is_gap (d ∷ rest)

-- Gaps and the values of the literals behind them.
abbrev pub Piece : Type 0
Piece = Bytes × Bytes

-- The text: each value between quotes behind its gap.
unfoldable pub weave : List Piece → Bytes → Bytes
weave [] tail = tail
weave ((gap, v) ∷ pieces) tail = gap ++ b'\'' ∷ (quote v ++ b'\'' ∷ weave pieces tail)

-- The text with parameters for the values, from `n + 1` on.
unfoldable pub with_holes : ℕ → List Piece → Bytes → Bytes
with_holes n [] tail = tail
with_holes n ((gap, v) ∷ pieces) tail = gap ++ placeholder (suc n) ++ with_holes (suc n) pieces tail

abbrev pub IsGapped : Piece → Type 0
IsGapped (gap, v) = is_gap gap ≡ true

abbrev pub literals : List Piece → List LiteralValue
literals pieces = map (λ p. string_literal p.1) pieces

abbrev pub values_of : List Piece → List Bytes
values_of pieces = map (λ p. p.1) pieces

advance-plain :
    (v : Bytes) (c : ℕ) (rest : Bytes)
    → is_plain c ≡ true
    → (is_prefix_byte c && starts_with b'\'' rest) ≡ false
    → advance (string_literal v) c rest ≡ skip_to rest
unfolding advance try_match pass_over is_plain is_prefix_byte
advance-plain v c rest h k = ground (arith, h, k)

advance-quote :
    (v rest : Bytes)
    → NoQuote rest
    → advance (string_literal v) b'\'' (quote v ++ b'\'' ∷ rest) ≡ hit rest
unfolding advance try_match compare_token
advance-quote v rest h =
    ap (compare_token (string_literal v)) (read_quoted-quote v rest h)
    ∙ ap (λ same. if same then hit rest else skip_to rest) (equal_refl v)

skips :
    (fuel : ℕ) (lit : LiteralValue) (c : ℕ) (rest next : Bytes)
    → advance lit c rest ≡ skip_to next
    → find_next_literal (suc fuel) lit (c ∷ rest) ≡ find_next_literal fuel lit next
unfolding find_next_literal
skips fuel lit c rest next eq =
    ap
      (λ m. elim m [
        | skip_to next ↦ find_next_literal fuel lit next
        | hit end ↦ found (c ∷ rest) end
        | panics ↦ panicked
      ])
      eq

hits :
    (fuel : ℕ) (lit : LiteralValue) (c : ℕ) (rest end : Bytes)
    → advance lit c rest ≡ hit end
    → find_next_literal (suc fuel) lit (c ∷ rest) ≡ found (c ∷ rest) end
unfolding find_next_literal
hits fuel lit c rest end eq =
    ap
      (λ m. elim m [
        | skip_to next ↦ find_next_literal fuel lit next
        | hit end ↦ found (c ∷ rest) end
        | panics ↦ panicked
      ])
      eq

single-gap : (c : ℕ) → is_gap (c ∷ []) ≡ true → (is_plain c ≡ true) × (is_prefix_byte c ≡ false)
unfolding is_gap
single-gap c h = (ground (arith, h), ground (arith, h))

longer-gap :
    (c d : ℕ) (gap : Bytes)
    → is_gap (c ∷ d ∷ gap) ≡ true
    → (is_plain c ≡ true) × (is_gap (d ∷ gap) ≡ true)
unfolding is_gap
longer-gap c d gap h = (ground (arith, h), ground (arith, h))

first-plain : (d : ℕ) (gap : Bytes) → is_gap (d ∷ gap) ≡ true → (d == b'\'') ≡ false
unfolding is_plain
first-plain d [] h = ground (arith, single-gap d h)
first-plain d (e ∷ gap) h = ground (arith, longer-gap d e gap h)

-- The search passes the gap and stops at the quote behind it.
find_behind_gap :
    (fuel : ℕ) (v gap rest : Bytes)
    → is_gap gap ≡ true
    → NoQuote rest
    → length gap < fuel
    → find_next_literal fuel (string_literal v) (gap ++ b'\'' ∷ (quote v ++ b'\'' ∷ rest))
      ≡ found (b'\'' ∷ (quote v ++ b'\'' ∷ rest)) rest
unfolding is_gap
find_behind_gap fuel v [] rest h q le = ground (arith, h)
find_behind_gap zero v (c ∷ gap) rest h q le = ground (arith, le)
find_behind_gap (suc zero) v (c ∷ gap) rest h q le = ground (arith, le)
find_behind_gap (suc (suc fuel)) v (c ∷ []) rest h q le =
    skips (suc fuel) (string_literal v) c (b'\'' ∷ (quote v ++ b'\'' ∷ rest))
      (b'\'' ∷ (quote v ++ b'\'' ∷ rest))
      (advance-plain v c (b'\'' ∷ (quote v ++ b'\'' ∷ rest)) (single-gap c h).0
        (ground (arith, single-gap c h)))
    ∙ hits fuel (string_literal v) b'\'' (quote v ++ b'\'' ∷ rest) rest (advance-quote v rest q)
find_behind_gap (suc (suc fuel)) v (c ∷ d ∷ gap) rest h q le =
    let behind = gap ++ b'\'' ∷ (quote v ++ b'\'' ∷ rest) in
    skips (suc fuel) (string_literal v) c (d ∷ behind) (d ∷ behind) (
      advance-plain v c (d ∷ behind) (longer-gap c d gap h).0
        (ground (arith, first-plain d gap (longer-gap c d gap h).1)))
    ∙ find_behind_gap (suc fuel) v (d ∷ gap) rest (longer-gap c d gap h).1 q (omega (arith, le))

locate_behind_gap :
    (v gap rest : Bytes)
    → is_gap gap ≡ true
    → NoQuote rest
    → locate (string_literal v) (gap ++ b'\'' ∷ (quote v ++ b'\'' ∷ rest))
      ≡ ok (b'\'' ∷ (quote v ++ b'\'' ∷ rest), rest)
unfolding locate
locate_behind_gap v gap rest h q =
    let token = b'\'' ∷ (quote v ++ b'\'' ∷ rest) in
    ap
      (λ f. elim f [
        | found start end ↦ ok (start, end)
        | missing ↦ err (unlocated v)
        | panicked ↦ err slice_panic
        | out_of_fuel ↦ err cut_off
      ])
      (find_behind_gap (length (gap ++ token)) v gap rest h q
        (omega (arith, length-append gap token)))

first-not-quote : (c : ℕ) (gap : Bytes) → is_gap (c ∷ gap) ≡ true → c ≢ b'\''
first-not-quote c gap h eq = ground (arith, first-plain c gap h, eq)

weave-NoQuote :
    (pieces : List Piece) (tail : Bytes)
    → All IsGapped pieces
    → NoQuote tail
    → NoQuote (weave pieces tail)
unfolding weave is_gap
weave-NoQuote [] tail all q = q
weave-NoQuote (([], v) ∷ pieces) tail (h, all) q = ground (arith, h)
weave-NoQuote ((c ∷ gap, v) ∷ pieces) tail (h, all) q = first-not-quote c gap h

rewrite_from-weave :
    (n : ℕ) (pieces : List Piece) (tail : Bytes)
    → All IsGapped pieces
    → NoQuote tail
    → rewrite_from n (weave pieces tail) (literals pieces)
      ≡ ok (with_holes n pieces tail, values_of pieces)
unfolding rewrite_from weave with_holes
rewrite_from-weave n [] tail all q = refl
rewrite_from-weave n ((gap, v) ∷ pieces) tail (h, all) q = rw (
  locate_behind_gap v gap (weave pieces tail) h (weave-NoQuote pieces tail all q),
  rewrite_from-weave (suc n) pieces tail all q,
  before-append gap (b'\'' ∷ (quote v ++ b'\'' ∷ weave pieces tail)),
)

-- Whatever the values: a text of gaps and strings between quotes is rewritten to the gaps with
-- the parameters `$1`, `$2`, … for the strings, in order, and the values are those of the strings.
-- A gap is not empty, holds no quote, `"`, `$`, `-` or `/`, and does not end in the letter of a
-- string prefix; the text behind the last string begins with no quote.
pub rewrite_literals-weave :
    (pieces : List Piece) (tail : Bytes)
    → All IsGapped pieces
    → NoQuote tail
    → rewrite_literals (weave pieces tail) (literals pieces)
      ≡ ok (with_holes 0 pieces tail, values_of pieces)
unfolding rewrite_literals
rewrite_literals-weave [] tail all q = rewrite_from-weave 0 [] tail all q
rewrite_literals-weave (p ∷ pieces) tail all q = rewrite_from-weave 0 (p ∷ pieces) tail all q
