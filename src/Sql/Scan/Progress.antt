-- ===== src/Sql/Scan/Progress.antt =====
-- Every round of `findNextLiteral` moves on within the text, so its loop ends.
use pgfox.Prelude.{
  branches, guarded, ℕ, zero, suc, ◌≤◌, true, false, ◌&&◌, ◌||◌, Option, none, some, [], ◌∷◌, ◌==◌,
  ◌≡◌, ◌≢◌, sym, subst, inl, inr, arith, length, drop, Bool-cases,
}
use pgfox.Prelude.Bytes.{Bytes, equal}
use pgfox.Sql.Tokens.{
  Token, is_ws, is_digit, read_quoted, read_e_string, read_dollar_quoted, read_bit_string,
  read_number,
}
use pgfox.Sql.Suffix.{
  IsSuffix, at, behind, further, length-IsSuffix, drop-IsSuffix, Ends, MayEnd, read_quoted-Ends,
  read_e_string-Ends, read_dollar_quoted-Ends, read_bit_string-MayEnd, read_number-digit,
  read_number-point,
}
use pgfox.Sql.Scan.{
  LitKind, lit_string, lit_int, lit_float, lit_bit_str, LiteralValue, Move, skip_to, hit, panics,
  starts_with, starts_with_digit, line_end, block_end, identifier_end, compare_token, pass_token,
  compare_bits, pass_bits, is_e_prefix, is_bit_prefix, has_fraction, compare_int, pass_over,
  try_match, advance, Found, found, missing, panicked, out_of_fuel, find_next_literal,
}

-- Where a round at a byte in front of `rest` goes on.
abbrev pub MovesOn : Bytes → Move → Type 0
MovesOn rest (skip_to next) = IsSuffix next rest
MovesOn rest (hit end) = IsSuffix end rest
MovesOn rest panics = Unit {0}

line_end-IsSuffix : (src : Bytes) → IsSuffix (line_end src) src
unfolding line_end
line_end-IsSuffix [] = at
line_end-IsSuffix (c ∷ rest) =
    branches (λ end. IsSuffix end (c ∷ rest)) (c == b'\n') at (behind c (line_end-IsSuffix rest))

block_end-IsSuffix : (src : Bytes) → IsSuffix (block_end src) src
unfolding block_end
block_end-IsSuffix [] = at
block_end-IsSuffix (c ∷ []) = behind c at
block_end-IsSuffix (c ∷ d ∷ rest) =
    branches (λ end. IsSuffix end (c ∷ d ∷ rest)) (c == b'*' && d == b'/') (behind c (behind d at))
      (behind c (block_end-IsSuffix (d ∷ rest)))

identifier_end-IsSuffix : (src : Bytes) → IsSuffix (identifier_end src) src
unfolding identifier_end
identifier_end-IsSuffix [] = at
identifier_end-IsSuffix (c ∷ rest) =
    branches (λ end. IsSuffix end (c ∷ rest)) (c == b'"') (behind c at)
      (behind c (identifier_end-IsSuffix rest))

compare_token-MovesOn :
    (lit : LiteralValue) (rest : Bytes) (t : Token)
    → Ends rest t
    → MovesOn rest (compare_token lit t)
unfolding compare_token
compare_token-MovesOn lit rest (value, end) h = branches (MovesOn rest) (equal value lit.value) h h

pass_token-MovesOn : (rest : Bytes) (t : Token) → Ends rest t → MovesOn rest (pass_token t)
unfolding pass_token
pass_token-MovesOn rest (value, end) h = h

compare_int-MovesOn :
    (lit : LiteralValue) (rest : Bytes) (t : Token) → Ends rest t → MovesOn rest (compare_int lit t)
unfolding compare_int
compare_int-MovesOn lit rest (value, end) h =
    branches (MovesOn rest) (has_fraction value) h (compare_token-MovesOn lit rest (value, end) h)

compare_bits-MovesOn :
    (lit : LiteralValue) (rest : Bytes) (r : Option Token)
    → MayEnd rest r
    → MovesOn rest (compare_bits lit r)
unfolding compare_bits
compare_bits-MovesOn lit rest none h = tt
compare_bits-MovesOn lit rest (some t) h = compare_token-MovesOn lit rest t h

pass_bits-MovesOn : (rest : Bytes) (r : Option Token) → MayEnd rest r → MovesOn rest (pass_bits r)
unfolding pass_bits
pass_bits-MovesOn rest none h = tt
pass_bits-MovesOn rest (some t) h = pass_token-MovesOn rest t h

-- Behind a prefix of one byte.
quoted-Ends : (rest : Bytes) → Ends rest (read_e_string (drop 1 rest))
quoted-Ends rest = further (read_e_string-Ends (drop 1 rest)) (drop-IsSuffix 1 rest)

behind_bits : (d : ℕ) (rest : Bytes) (r : Option Token) → MayEnd rest r → MayEnd (d ∷ rest) r
behind_bits d rest none h = tt
behind_bits d rest (some t) h = behind d h

bits-MayEnd : (c : ℕ) (rest : Bytes) → MayEnd rest (read_bit_string c (drop 1 rest))
bits-MayEnd c [] = read_bit_string-MayEnd c []
bits-MayEnd c (d ∷ rest) =
    behind_bits d rest (read_bit_string c rest) (read_bit_string-MayEnd c rest)

pass_over-MovesOn : (c : ℕ) (rest : Bytes) → MovesOn rest (pass_over c rest)
unfolding pass_over
pass_over-MovesOn c rest =
    let P = MovesOn rest in
    branches P (c == b'\'') (pass_token-MovesOn rest (read_quoted rest) (read_quoted-Ends rest)) (
      branches P (is_e_prefix c rest)
        (pass_token-MovesOn rest (read_e_string (drop 1 rest)) (quoted-Ends rest))
        (branches P (c == b'$')
          (pass_token-MovesOn rest (read_dollar_quoted rest) (read_dollar_quoted-Ends rest))
          (branches P (is_bit_prefix c rest)
            (pass_bits-MovesOn rest (read_bit_string c (drop 1 rest)) (bits-MayEnd c rest)) at)))

is_point :
    (c : ℕ) (rest : Bytes)
    → is_digit c ≡ false
    → (is_digit c || c == b'.' && starts_with_digit rest) ≡ true
    → c ≡ b'.'
is_point c rest n h = ground (arith, n, h)

number-Ends :
    (c : ℕ) (rest : Bytes)
    → (is_digit c || c == b'.' && starts_with_digit rest) ≡ true
    → Ends rest (read_number (c ∷ rest))
number-Ends c rest h = elim (Bool-cases (is_digit c)) [
  | inl y ↦ read_number-digit c rest y
  | inr n ↦
      subst (λ d. Ends rest (read_number (d ∷ rest))) (sym (is_point c rest n h))
        (read_number-point rest)
]

try_match-MovesOn :
    (k : LitKind) (lit : LiteralValue) (c : ℕ) (rest : Bytes)
    → MovesOn rest (try_match k lit c rest)
unfolding try_match
try_match-MovesOn lit_string lit c rest =
    let P = MovesOn rest in
    branches P (c == b'\'')
      (compare_token-MovesOn lit rest (read_quoted rest) (read_quoted-Ends rest))
      (branches P (is_e_prefix c rest)
        (compare_token-MovesOn lit rest (read_e_string (drop 1 rest)) (quoted-Ends rest))
        (branches P (c == b'$')
          (pass_token-MovesOn rest (read_dollar_quoted rest) (read_dollar_quoted-Ends rest))
          (pass_over-MovesOn c rest)))
try_match-MovesOn lit_int lit c rest =
    guarded (MovesOn rest) (is_digit c)
      (λ h. compare_int-MovesOn lit rest (read_number (c ∷ rest)) (read_number-digit c rest h))
      (pass_over-MovesOn c rest)
try_match-MovesOn lit_float lit c rest =
    guarded (MovesOn rest) (is_digit c || c == b'.' && starts_with_digit rest)
      (λ h. compare_token-MovesOn lit rest (read_number (c ∷ rest)) (number-Ends c rest h))
      (pass_over-MovesOn c rest)
try_match-MovesOn lit_bit_str lit c rest =
    branches (MovesOn rest) (is_bit_prefix c rest)
      (compare_bits-MovesOn lit rest (read_bit_string c (drop 1 rest)) (bits-MayEnd c rest))
      (pass_over-MovesOn c rest)

dash-IsSuffix : (c : ℕ) (rest : Bytes) → c ≡ b'-' → IsSuffix (line_end (c ∷ rest)) rest
unfolding line_end
dash-IsSuffix c rest h =
    subst (λ d. IsSuffix (line_end (d ∷ rest)) rest) (sym h) (line_end-IsSuffix rest)

pub advance-MovesOn :
    (lit : LiteralValue) (c : ℕ) (rest : Bytes) → MovesOn rest (advance lit c rest)
unfolding advance
advance-MovesOn lit c rest =
    let P = MovesOn rest in
    branches P (is_ws c) at (
      guarded P (c == b'-' && starts_with b'-' rest) (λ h. dash-IsSuffix c rest (ground (arith, h)))
        (branches P (c == b'/' && starts_with b'*' rest)
          (further (block_end-IsSuffix (drop 1 rest)) (drop-IsSuffix 1 rest))
          (branches P (c == b'"') (identifier_end-IsSuffix rest)
            (try_match-MovesOn lit.kind lit c rest))))

-- The search is not cut off.
abbrev pub Ended : Found → Type 0
Ended (found start end) = Unit {0}
Ended missing = Unit {0}
Ended panicked = Unit {0}
Ended out_of_fuel = true ≡ false

moved :
    (fuel : ℕ) (lit : LiteralValue) (c : ℕ) (rest : Bytes) (m : Move)
    → MovesOn rest m
    → ((next : Bytes) → length next ≤ fuel → Ended (find_next_literal fuel lit next))
    → length rest ≤ fuel
    → Ended (elim m [
      | skip_to next ↦ find_next_literal fuel lit next
      | hit end ↦ found (c ∷ rest) end
      | panics ↦ panicked
    ])
moved fuel lit c rest (skip_to next) h ih le = ih next (omega (arith, length-IsSuffix h, le))
moved fuel lit c rest (hit end) h ih le = tt
moved fuel lit c rest panics h ih le = tt

pub find_next_literal-Ended :
    (fuel : ℕ) (lit : LiteralValue) (src : Bytes)
    → length src ≤ fuel
    → Ended (find_next_literal fuel lit src)
unfolding find_next_literal
find_next_literal-Ended fuel lit [] h = tt
find_next_literal-Ended zero lit (c ∷ rest) h = ground (arith, h)
find_next_literal-Ended (suc fuel) lit (c ∷ rest) h =
    moved fuel lit c rest (advance lit c rest) (advance-MovesOn lit c rest)
      (λ next. find_next_literal-Ended fuel lit next) (omega (arith, h))

pub not_both : true ≢ false
not_both eq = ground (arith, eq)

-- The search for a literal ends, whatever the text: with the length of the text as its fuel, or
-- more, it never runs out of it, since each round moves on by a byte at least and stays within
-- the text.
pub find_next_literal-ends :
    (fuel : ℕ) (lit : LiteralValue) (src : Bytes)
    → length src ≤ fuel
    → find_next_literal fuel lit src ≢ out_of_fuel
find_next_literal-ends fuel lit src h eq =
    not_both (subst Ended eq (find_next_literal-Ended fuel lit src h))
