-- ===== src/Sql/Scan.antt =====
-- `findNextLiteral` of pkg/pgfox/parser.go: the search for the token that spells a literal. A
-- position is the bytes from there on.
pub mod Progress
pub mod Hits
use pgfox.Prelude.{
  ℕ, zero, suc, Bool, true, false, not, ◌&&◌, ◌||◌, Option, none, some, List, [], ◌∷◌,
  if◌then◌else◌, ◌==◌, drop, length,
}
use pgfox.Prelude.Bytes.{Bytes, equal}
use pgfox.Sql.Tokens.{
  Token, is_ws, is_digit, read_quoted, read_e_string, read_dollar_quoted, read_bit_string,
  read_number,
}

-- `litKind`
pub data LitKind : Type 0 where
  lit_string : LitKind
  lit_int : LitKind
  lit_float : LitKind
  lit_bit_str : LitKind

-- `literalValue`
pub record LiteralValue : Type 0 where
  pub kind : LitKind
  pub value : Bytes

-- One round of the loop: it goes on at a position, finds the literal up to one, or panics.
pub data Move : Type 0 where
  skip_to : Bytes → Move
  hit : Bytes → Move
  panics : Move

abbrev pub starts_with : ℕ → Bytes → Bool
starts_with c [] = false
starts_with c (d ∷ rest) = d == c

-- `i+1 < n && isDigit(src[i+1])`
abbrev pub starts_with_digit : Bytes → Bool
starts_with_digit [] = false
starts_with_digit (d ∷ rest) = is_digit d

-- A line comment, up to its newline.
unfoldable pub line_end : Bytes → Bytes
line_end [] = []
line_end (c ∷ rest) = let later = line_end rest in if c == b'\n' then c ∷ rest else later

-- A block comment, behind its opening.
unfoldable pub block_end : Bytes → Bytes
block_end [] = []
block_end (c ∷ []) = []
block_end (c ∷ d ∷ rest) =
    let later = block_end (d ∷ rest) in if c == b'*' && d == b'/' then rest else later

-- A quoted identifier, behind its opening. The branch for a doubled quote is never taken.
unfoldable pub identifier_end : Bytes → Bytes
identifier_end [] = []
identifier_end (c ∷ rest) = let later = identifier_end rest in if c == b'"' then rest else later

-- `rawStr == lit.value`
unfoldable pub compare_token : LiteralValue → Token → Move
compare_token lit (value, end) = if equal value lit.value then hit end else skip_to end

unfoldable pub pass_token : Token → Move
pass_token (value, end) = skip_to end

unfoldable pub compare_bits : LiteralValue → Option Token → Move
unfolding compare_token
compare_bits lit none = panics
compare_bits lit (some t) = compare_token lit t

unfoldable pub pass_bits : Option Token → Move
unfolding pass_token
pass_bits none = panics
pass_bits (some t) = pass_token t

abbrev pub is_e_prefix : ℕ → Bytes → Bool
is_e_prefix c rest = (c == b'E' || c == b'e') && starts_with b'\'' rest

abbrev pub is_bit_prefix : ℕ → Bytes → Bool
is_bit_prefix c rest = (c == b'B' || c == b'b' || c == b'X' || c == b'x') && starts_with b'\'' rest

-- `strings.Contains(numStr, ".") || strings.ContainsAny(numStr, "eE")`
unfoldable pub has_fraction : Bytes → Bool
has_fraction [] = false
has_fraction (c ∷ cs) = c == b'.' || c == b'e' || c == b'E' || has_fraction cs

unfoldable pub compare_int : LiteralValue → Token → Move
unfolding has_fraction compare_token
compare_int lit (value, end) =
    if has_fraction value then skip_to end else compare_token lit (value, end)

-- The last part of the round: strings that are not searched are skipped.
unfoldable pub pass_over : ℕ → Bytes → Move
unfolding pass_token pass_bits
pass_over c rest =
    if c == b'\''
    then pass_token (read_quoted rest)
    else if is_e_prefix c rest
    then pass_token (read_e_string (drop 1 rest))
    else if c == b'$'
    then pass_token (read_dollar_quoted rest)
    else if is_bit_prefix c rest
    then pass_bits (read_bit_string c (drop 1 rest))
    else skip_to rest

-- The `switch lit.kind`.
unfoldable pub try_match : LitKind → LiteralValue → ℕ → Bytes → Move
unfolding compare_token pass_token compare_int compare_bits pass_over
try_match lit_string lit c rest =
    if c == b'\''
    then compare_token lit (read_quoted rest)
    else if is_e_prefix c rest
    then compare_token lit (read_e_string (drop 1 rest))
    else if c == b'$'
    then pass_token (read_dollar_quoted rest)
    else pass_over c rest
try_match lit_int lit c rest =
    if is_digit c then compare_int lit (read_number (c ∷ rest)) else pass_over c rest
try_match lit_float lit c rest =
    if is_digit c || c == b'.' && starts_with_digit rest
    then compare_token lit (read_number (c ∷ rest))
    else pass_over c rest
try_match lit_bit_str lit c rest =
    if is_bit_prefix c rest
    then compare_bits lit (read_bit_string c (drop 1 rest))
    else pass_over c rest

-- The body of the loop.
unfoldable pub advance : LiteralValue → ℕ → Bytes → Move
unfolding line_end block_end identifier_end try_match
advance lit c rest =
    if is_ws c
    then skip_to rest
    else if c == b'-' && starts_with b'-' rest
    then skip_to (line_end (c ∷ rest))
    else if c == b'/' && starts_with b'*' rest
    then skip_to (block_end (drop 1 rest))
    else if c == b'"'
    then skip_to (identifier_end rest)
    else try_match lit.kind lit c rest

-- The positions of the token's start and end, an error, a panic, or no fuel.
pub data Found : Type 0 where
  found : Bytes → Bytes → Found
  missing : Found
  panicked : Found
  out_of_fuel : Found

unfoldable pub find_next_literal : ℕ → LiteralValue → Bytes → Found
unfolding advance
find_next_literal fuel lit [] = missing
find_next_literal zero lit (c ∷ rest) = out_of_fuel
find_next_literal (suc fuel) lit (c ∷ rest) = elim (advance lit c rest) [
  | skip_to next ↦ find_next_literal fuel lit next
  | hit end ↦ found (c ∷ rest) end
  | panics ↦ panicked
]
