-- ===== src/Sql/Tokens.antt =====
-- The token readers of pkg/pgfox/parser.go. A position in `src` is the bytes from there on: a
-- reader takes those behind the start of its token, and returns what it read with the bytes from
-- its end on.
pub mod Strings
use pgfox.Prelude.{
  ℕ, zero, suc, ◌+◌, Bool, true, false, ◌&&◌, ◌||◌, Option, none, some, List, [], ◌∷◌, ◌++◌,
  if◌then◌else◌, ◌==◌, leb, take, drop, length,
}
use pgfox.Prelude.Bytes.{Bytes, equal}

abbrev pub is_ws : ℕ → Bool
is_ws ch = ch == b' ' || ch == b'\t' || ch == b'\n' || ch == b'\r'

abbrev pub is_digit : ℕ → Bool
is_digit ch = leb b'0' ch && leb ch b'9'

abbrev pub is_alpha : ℕ → Bool
is_alpha ch = leb b'a' ch && leb ch b'z' || leb b'A' ch && leb ch b'Z' || ch == b'_'

abbrev pub Token : Type 0
Token = Bytes × Bytes

-- `sb.WriteByte(c)`, in front of what is read later.
abbrev pub write : ℕ → Token → Token
write c (value, end) = (c ∷ value, end)

-- `readSingleQuotedString`, behind the opening quote.
unfoldable pub read_quoted : Bytes → Token
read_quoted [] = ([], [])
read_quoted (c ∷ []) = if c == b'\'' then ([], []) else (c ∷ [], [])
read_quoted (c ∷ d ∷ rest) =
    let twice = read_quoted rest in
    let once = read_quoted (d ∷ rest) in
    if c == b'\'' then (if d == b'\'' then write b'\'' twice else ([], d ∷ rest)) else write c once

-- The byte that an escape stands for.
unfoldable pub unescape : ℕ → ℕ
unescape c =
    if c == b'n' then b'\n' else if c == b't' then b'\t' else if c == b'r' then b'\r' else c

-- `readEString`, behind `E'`.
unfoldable pub read_e_string : Bytes → Token
unfolding unescape
read_e_string [] = ([], [])
read_e_string (c ∷ []) = if c == b'\'' then ([], []) else (c ∷ [], [])
read_e_string (c ∷ d ∷ rest) =
    let twice = read_e_string rest in
    let once = read_e_string (d ∷ rest) in
    if c == b'\\'
    then write (unescape d) twice
    else if c == b'\''
    then (if d == b'\'' then write b'\'' twice else ([], d ∷ rest))
    else write c once

-- The tag behind the first `$`, and what stands from its end on.
unfoldable pub read_tag : Bytes → Token
read_tag [] = ([], [])
read_tag (c ∷ rest) =
    let more = write c (read_tag rest) in
    if is_alpha c || is_digit c || c == b'_' then more else ([], c ∷ rest)

unfoldable pub is_prefix : Bytes → Bytes → Bool
is_prefix [] s = true
is_prefix (p ∷ ps) [] = false
is_prefix (p ∷ ps) (c ∷ cs) = p == c && is_prefix ps cs

-- `strings.Index`, with what stands before the first occurrence.
unfoldable pub split_at : Bytes → Bytes → Option Token
split_at tag [] = if is_prefix tag [] then some ([], []) else none
split_at tag (c ∷ cs) =
    let later = split_at tag cs in
    if is_prefix tag (c ∷ cs)
    then some ([], c ∷ cs)
    else (elim later [ none ↦ none | some t ↦ some (write c t) ])

-- `readDollarQuoted`, behind the `$`; `none` where no dollar quote starts there, and the end is
-- the next byte.
unfoldable pub read_dollar_body : Bytes → Bytes → Token
read_dollar_body tag body = elim (split_at tag body) [
  | none ↦ (body, [])
  | some (inside, rest) ↦ (inside, drop (length tag) rest)
]

unfoldable pub read_dollar_from : Bytes → Token → Token
unfolding read_dollar_body
read_dollar_from start (tag, []) = ([], start)
read_dollar_from start (tag, c ∷ rest) =
    if c == b'$' then read_dollar_body (b'$' ∷ (tag ++ b'$' ∷ [])) rest else ([], start)

unfoldable pub read_dollar_quoted : Bytes → Token
unfolding read_tag read_dollar_from
read_dollar_quoted start = read_dollar_from start (read_tag start)

-- `readBitString`, behind the prefix and the quote: `none` stands for the panic of the slice
-- `src[start:i-1]`, at the end of the text. A string without its closing quote loses its last
-- byte.
unfoldable pub bits_until : Bytes → Option Token
bits_until [] = none
bits_until (c ∷ []) = some ([], [])
bits_until (c ∷ d ∷ rest) =
    let more = bits_until (d ∷ rest) in
    if c == b'\''
    then some ([], d ∷ rest)
    else (elim more [ none ↦ none | some t ↦ some (write c t) ])

unfoldable pub read_bit_string : ℕ → Bytes → Option Token
unfolding bits_until
read_bit_string prefix rest = elim (bits_until rest) [
  | none ↦ none
  | some t ↦ some (write prefix t)
]

unfoldable pub read_digits : Bytes → Token
read_digits [] = ([], [])
read_digits (c ∷ rest) =
    let more = write c (read_digits rest) in if is_digit c then more else ([], c ∷ rest)

abbrev pub onto : Bytes → Token → Token
onto prefix (value, end) = (prefix ++ value, end)

-- Behind the `e`: a sign and digits.
unfoldable pub read_exponent_digits : Bytes → Token
read_exponent_digits [] = ([], [])
read_exponent_digits (c ∷ rest) =
    if c == b'+' || c == b'-' then write c (read_digits rest) else read_digits (c ∷ rest)

unfoldable pub read_exponent : Token → Token
unfolding read_exponent_digits
read_exponent (value, []) = (value, [])
read_exponent (value, c ∷ rest) =
    if c == b'e' || c == b'E'
    then onto value (write c (read_exponent_digits rest))
    else (value, c ∷ rest)

unfoldable pub read_fraction : Token → Token
read_fraction (value, []) = (value, [])
read_fraction (value, c ∷ rest) =
    if c == b'.' then onto value (write c (read_digits rest)) else (value, c ∷ rest)

-- `readNumber`, from its first byte on.
unfoldable pub read_number : Bytes → Token
unfolding read_digits read_fraction read_exponent
read_number src = read_exponent (read_fraction (read_digits src))
