-- ===== src/Sql/Tokens/Strings.antt =====
-- What the string readers of pkg/pgfox/parser.go undo, and that they stop within the text.
use pgfox.Prelude.{
  ℕ, ◌||◌, [], ◌∷◌, ◌++◌, if◌then◌else◌, ◌==◌, ◌≡◌, ◌≢◌, refl, ap, ◌∙◌, arith, append_assoc,
}
use pgfox.Prelude.Bytes.{Bytes}
use pgfox.Sql.Tokens.{write, read_quoted, read_e_string, unescape}

-- How SQL writes a string between quotes: a quote in it is doubled.
pub quote : Bytes → Bytes
quote [] = []
quote (c ∷ cs) = let rest = quote cs in if c == b'\'' then b'\'' ∷ b'\'' ∷ rest else c ∷ rest

-- The text that follows does not begin with a quote.
abbrev pub NoQuote : Bytes → Type 0
NoQuote [] = Unit {0}
NoQuote (c ∷ rest) = c ≢ b'\''

read_quoted-char :
    (c : ℕ) (rest : Bytes) → c ≢ b'\'' → read_quoted (c ∷ rest) ≡ write c (read_quoted rest)
unfolding read_quoted
read_quoted-char c [] h = ground arith
read_quoted-char c (d ∷ rest) h = ground arith

read_quoted-double :
    (rest : Bytes) → read_quoted (b'\'' ∷ b'\'' ∷ rest) ≡ write b'\'' (read_quoted rest)
unfolding read_quoted
read_quoted-double rest = refl

read_quoted-end : (rest : Bytes) → NoQuote rest → read_quoted (b'\'' ∷ rest) ≡ ([], rest)
unfolding read_quoted
read_quoted-end [] h = refl
read_quoted-end (d ∷ rest) h = ground arith

pub read_quoted-quote :
    (s rest : Bytes) → NoQuote rest → read_quoted (quote s ++ b'\'' ∷ rest) ≡ (s, rest)
unfolding quote
read_quoted-quote [] rest h = read_quoted-end rest h
read_quoted-quote (c ∷ cs) rest h = ground (
  arith,
  read_quoted-quote cs rest h,
  read_quoted-double (quote cs ++ b'\'' ∷ rest),
  read_quoted-char c (quote cs ++ b'\'' ∷ rest),
)

-- How an escape string writes a string: quotes and backslashes behind a backslash, and newline,
-- tab and return by their letters.
escape_char : ℕ → Bytes
escape_char c =
    if c == b'\n'
    then b'\\' ∷ b'n' ∷ []
    else if c == b'\t'
    then b'\\' ∷ b't' ∷ []
    else if c == b'\r'
    then b'\\' ∷ b'r' ∷ []
    else if c == b'\'' || c == b'\\'
    then b'\\' ∷ c ∷ []
    else c ∷ []

pub escape : Bytes → Bytes
escape [] = []
escape (c ∷ cs) = escape_char c ++ escape cs

read_e_string-char :
    (c : ℕ) (rest : Bytes)
    → c ≢ b'\''
    → c ≢ b'\\'
    → read_e_string (c ∷ rest) ≡ write c (read_e_string rest)
unfolding read_e_string
read_e_string-char c [] h k = ground arith
read_e_string-char c (d ∷ rest) h k = ground arith

read_e_string-escape :
    (d : ℕ) (rest : Bytes)
    → read_e_string (b'\\' ∷ d ∷ rest) ≡ write (unescape d) (read_e_string rest)
unfolding read_e_string
read_e_string-escape d rest = refl

read_e_string-end : (rest : Bytes) → NoQuote rest → read_e_string (b'\'' ∷ rest) ≡ ([], rest)
unfolding read_e_string
read_e_string-end [] h = refl
read_e_string-end (d ∷ rest) h = ground arith

read_escape_char :
    (c : ℕ) (rest : Bytes) → read_e_string (escape_char c ++ rest) ≡ write c (read_e_string rest)
unfolding escape_char unescape
read_escape_char c rest = ground (
  arith,
  read_e_string-char c rest,
  read_e_string-escape b'n' rest,
  read_e_string-escape b't' rest,
  read_e_string-escape b'r' rest,
  read_e_string-escape c rest,
)

read_e_string-escaped :
    (s rest : Bytes) → NoQuote rest → read_e_string (escape s ++ b'\'' ∷ rest) ≡ (s, rest)
unfolding escape
read_e_string-escaped [] rest h = read_e_string-end rest h
read_e_string-escaped (c ∷ cs) rest h =
    ap read_e_string (append_assoc (escape_char c) (escape cs) (b'\'' ∷ rest))
    ∙ read_escape_char c (escape cs ++ b'\'' ∷ rest)
    ∙ ap (write c) (read_e_string-escaped cs rest h)

-- Both string readers undo the way SQL writes a string, whatever bytes it holds: the plain one
-- the doubling of quotes, the other the escapes with a backslash. They stop behind the closing
-- quote, if no further quote follows it.
pub read_strings-written :
    (s rest : Bytes)
    → NoQuote rest
    → (read_quoted (quote s ++ b'\'' ∷ rest) ≡ (s, rest))
      × (read_e_string (escape s ++ b'\'' ∷ rest) ≡ (s, rest))
read_strings-written s rest h = (read_quoted-quote s rest h, read_e_string-escaped s rest h)
