-- ===== src/Sql/Suffix.antt =====
-- Positions as the bytes from there on: what is behind what, and how far the readers of
-- pkg/pgfox/parser.go go.
use pgfox.Prelude.{
  ℕ, zero, suc, ◌≤◌, true, ◌||◌, Option, none, some, [], ◌∷◌, ◌++◌, ◌==◌, ◌≡◌, arith, length, drop,
  branches, taken,
}
use pgfox.Prelude.Bytes.{Bytes}
use pgfox.Sql.Tokens.{
  Token, is_digit, is_alpha, is_prefix, write, read_quoted, read_e_string, read_tag, split_at,
  read_dollar_body, read_dollar_from, read_dollar_quoted, bits_until, read_bit_string, read_digits,
  read_exponent_digits, read_exponent, read_fraction, read_number,
}

-- `IsSuffix end src`: the position `end` is not before `src`.
pub data IsSuffix (end : Bytes) : Bytes → Type 0 where
  at : IsSuffix end end
  behind : {src : Bytes} (c : ℕ) → IsSuffix end src → IsSuffix end (c ∷ src)

pub nothing_left : (src : Bytes) → IsSuffix [] src
nothing_left [] = at
nothing_left (c ∷ rest) = behind c (nothing_left rest)

pub further : {a b c : Bytes} → IsSuffix a b → IsSuffix b c → IsSuffix a c
further h at = h
further h (behind c k) = behind c (further h k)

pub length-IsSuffix : {end src : Bytes} → IsSuffix end src → length end ≤ length src
length-IsSuffix at = omega arith
length-IsSuffix (behind c h) = omega (arith, length-IsSuffix h)

pub drop-IsSuffix : (n : ℕ) (src : Bytes) → IsSuffix (drop n src) src
drop-IsSuffix zero src = at
drop-IsSuffix (suc n) [] = at
drop-IsSuffix (suc n) (c ∷ rest) = behind c (drop-IsSuffix n rest)

-- The end of a token is not before its position.
abbrev pub Ends : Bytes → Token → Type 0
Ends src t = IsSuffix t.1 src

pub read_quoted-Ends : (src : Bytes) → Ends src (read_quoted src)
unfolding read_quoted
read_quoted-Ends [] = at
read_quoted-Ends (c ∷ []) = branches (Ends (c ∷ [])) (c == b'\'') (behind c at) (behind c at)
read_quoted-Ends (c ∷ d ∷ rest) =
    branches (Ends (c ∷ d ∷ rest)) (c == b'\'')
      (branches (Ends (c ∷ d ∷ rest)) (d == b'\'') (behind c (behind d (read_quoted-Ends rest)))
        (behind c at))
      (behind c (read_quoted-Ends (d ∷ rest)))

pub read_e_string-Ends : (src : Bytes) → Ends src (read_e_string src)
unfolding read_e_string
read_e_string-Ends [] = at
read_e_string-Ends (c ∷ []) = branches (Ends (c ∷ [])) (c == b'\'') (behind c at) (behind c at)
read_e_string-Ends (c ∷ d ∷ rest) =
    let P = Ends (c ∷ d ∷ rest) in
    let twice = behind c (behind d (read_e_string-Ends rest)) in
    branches P (c == b'\\') twice (
      branches P (c == b'\'')
        (branches P (d == b'\'') (behind c (behind d (read_e_string-Ends rest))) (behind c at))
        (behind c (read_e_string-Ends (d ∷ rest))))

read_tag-Ends : (src : Bytes) → Ends src (read_tag src)
unfolding read_tag
read_tag-Ends [] = at
read_tag-Ends (c ∷ rest) =
    branches (Ends (c ∷ rest)) (is_alpha c || is_digit c || c == b'_')
      (behind c (read_tag-Ends rest)) at

abbrev pub MayEnd : Bytes → Option Token → Type 0
MayEnd src none = Unit {0}
MayEnd src (some t) = Ends src t

written :
    (c : ℕ) (src : Bytes) (r : Option Token)
    → MayEnd src r
    → MayEnd (c ∷ src) (elim r [ none ↦ none | some t ↦ some (write c t) ])
written c src none h = tt
written c src (some t) h = behind c h

prefixed :
    (p : ℕ) (src : Bytes) (r : Option Token)
    → MayEnd src r
    → MayEnd src (elim r [ none ↦ none | some t ↦ some (write p t) ])
prefixed p src none h = tt
prefixed p src (some t) h = h

closed :
    (tag src : Bytes) (r : Option Token)
    → MayEnd src r
    → Ends src
        (elim r [ none ↦ (src, []) | some (inside, rest) ↦ (inside, drop (length tag) rest) ])
closed tag src none h = nothing_left src
closed tag src (some (inside, rest)) h = further (drop-IsSuffix (length tag) rest) h

split_at-MayEnd : (tag src : Bytes) → MayEnd src (split_at tag src)
unfolding split_at
split_at-MayEnd tag [] = branches (MayEnd []) (is_prefix tag []) at tt
split_at-MayEnd tag (c ∷ cs) =
    branches (MayEnd (c ∷ cs)) (is_prefix tag (c ∷ cs)) at
      (written c cs (split_at tag cs) (split_at-MayEnd tag cs))

pub read_dollar_body-Ends : (tag body : Bytes) → Ends body (read_dollar_body tag body)
unfolding read_dollar_body
read_dollar_body-Ends tag body = closed tag body (split_at tag body) (split_at-MayEnd tag body)

pub read_dollar_from-Ends :
    (start : Bytes) (t : Token) → Ends start t → Ends start (read_dollar_from start t)
unfolding read_dollar_from
read_dollar_from-Ends start (tag, []) h = at
read_dollar_from-Ends start (tag, c ∷ rest) h =
    branches (Ends start) (c == b'$')
      (further (read_dollar_body-Ends (b'$' ∷ (tag ++ b'$' ∷ [])) rest) (further (behind c at) h))
      at

pub read_dollar_quoted-Ends : (src : Bytes) → Ends src (read_dollar_quoted src)
unfolding read_dollar_quoted
read_dollar_quoted-Ends src = read_dollar_from-Ends src (read_tag src) (read_tag-Ends src)

bits_until-MayEnd : (src : Bytes) → MayEnd src (bits_until src)
unfolding bits_until
bits_until-MayEnd [] = tt
bits_until-MayEnd (c ∷ []) = behind c at
bits_until-MayEnd (c ∷ d ∷ rest) =
    branches (MayEnd (c ∷ d ∷ rest)) (c == b'\'') (behind c at)
      (written c (d ∷ rest) (bits_until (d ∷ rest)) (bits_until-MayEnd (d ∷ rest)))

pub read_bit_string-MayEnd : (p : ℕ) (src : Bytes) → MayEnd src (read_bit_string p src)
unfolding read_bit_string
read_bit_string-MayEnd p src = prefixed p src (bits_until src) (bits_until-MayEnd src)

read_digits-Ends : (src : Bytes) → Ends src (read_digits src)
unfolding read_digits
read_digits-Ends [] = at
read_digits-Ends (c ∷ rest) =
    branches (Ends (c ∷ rest)) (is_digit c) (behind c (read_digits-Ends rest)) at

read_fraction-Ends : (src : Bytes) (t : Token) → Ends src t → Ends src (read_fraction t)
unfolding read_fraction
read_fraction-Ends src (value, []) h = h
read_fraction-Ends src (value, c ∷ rest) h =
    branches (Ends src) (c == b'.') (further (behind c (read_digits-Ends rest)) h) h

read_exponent_digits-Ends : (src : Bytes) → Ends src (read_exponent_digits src)
unfolding read_exponent_digits
read_exponent_digits-Ends [] = at
read_exponent_digits-Ends (c ∷ rest) =
    branches (Ends (c ∷ rest)) (c == b'+' || c == b'-') (behind c (read_digits-Ends rest))
      (read_digits-Ends (c ∷ rest))

read_exponent-Ends : (src : Bytes) (t : Token) → Ends src t → Ends src (read_exponent t)
unfolding read_exponent
read_exponent-Ends src (value, []) h = h
read_exponent-Ends src (value, c ∷ rest) h =
    branches (Ends src) (c == b'e' || c == b'E')
      (further (behind c (read_exponent_digits-Ends rest)) h) h

pub read_number-Ends : (src : Bytes) → Ends src (read_number src)
unfolding read_number
read_number-Ends src =
    read_exponent-Ends src (read_fraction (read_digits src))
      (read_fraction-Ends src (read_digits src) (read_digits-Ends src))

read_digits-first : (c : ℕ) (rest : Bytes) → is_digit c ≡ true → Ends rest (read_digits (c ∷ rest))
unfolding read_digits
read_digits-first c rest h = taken (Ends rest) (is_digit c) _ h (read_digits-Ends rest)

pub read_number-digit :
    (c : ℕ) (rest : Bytes) → is_digit c ≡ true → Ends rest (read_number (c ∷ rest))
unfolding read_number
read_number-digit c rest h =
    read_exponent-Ends rest (read_fraction (read_digits (c ∷ rest)))
      (read_fraction-Ends rest (read_digits (c ∷ rest)) (read_digits-first c rest h))

pub read_number-point : (rest : Bytes) → Ends rest (read_number (b'.' ∷ rest))
unfolding read_number read_digits read_fraction
read_number-point rest =
    read_exponent-Ends rest (read_fraction (read_digits (b'.' ∷ rest))) (read_digits-Ends rest)
