-- ===== src/Sql/Scan/Hits.antt =====
-- What `findNextLiteral` finds: a token of the literal's kind that spells its value.
use pgfox.Prelude.{
  branches, guarded, decided, ℕ, zero, suc, true, false, ◌&&◌, ◌||◌, Option, none, some, [], ◌∷◌,
  ◌==◌, ◌≡◌, refl, subst, ◌⊎◌, inl, inr, drop,
}
use pgfox.Prelude.Bytes.{Bytes, equal, equal_iff}
use pgfox.Sql.Tokens.{
  Token, is_ws, is_digit, read_quoted, read_e_string, read_dollar_quoted, read_bit_string,
  read_number,
}
use pgfox.Sql.Suffix.{IsSuffix, at, behind, further}
use pgfox.Sql.Scan.{
  LitKind, lit_string, lit_int, lit_float, lit_bit_str, LiteralValue, Move, skip_to, hit, panics,
  starts_with, starts_with_digit, compare_token, pass_token, compare_bits, pass_bits, is_e_prefix,
  is_bit_prefix, has_fraction, compare_int, pass_over, try_match, advance, Found, found, missing,
  panicked, out_of_fuel, find_next_literal,
}
use pgfox.Sql.Scan.Progress.{MovesOn, advance-MovesOn}

-- The bytes `c ∷ rest` begin with a token of the kind, read as the value and what is behind it.
abbrev pub Spells : LitKind → ℕ → Bytes → Token → Type 0
Spells lit_string c rest t =
    ((c == b'\'') ≡ true) × (read_quoted rest ≡ t)
    ⊎ (is_e_prefix c rest ≡ true) × (read_e_string (drop 1 rest) ≡ t)
Spells lit_int c rest t =
    (is_digit c ≡ true) × (has_fraction t.0 ≡ false) × (read_number (c ∷ rest) ≡ t)
Spells lit_float c rest t =
    ((is_digit c || c == b'.' && starts_with_digit rest) ≡ true) × (read_number (c ∷ rest) ≡ t)
Spells lit_bit_str c rest t =
    (is_bit_prefix c rest ≡ true) × (read_bit_string c (drop 1 rest) ≡ some t)

-- What holds of a find, if the round makes one.
abbrev OnHit : (Bytes → Type 0) → Move → Type 0
OnHit S (skip_to next) = Unit {0}
OnHit S (hit end) = S end
OnHit S panics = Unit {0}

compare_token-OnHit :
    (S : Token → Type 0) (lit : LiteralValue) (t : Token)
    → S t
    → OnHit (λ end. S (lit.value, end)) (compare_token lit t)
unfolding compare_token
compare_token-OnHit S lit (value, end) s =
    guarded (OnHit (λ e. S (lit.value, e))) (equal value lit.value)
      (λ h. subst (λ v. S (v, end)) ((equal_iff value lit.value).0 h) s) tt

pass_token-OnHit : (S : Bytes → Type 0) (t : Token) → OnHit S (pass_token t)
unfolding pass_token
pass_token-OnHit S (value, end) = tt

pass_bits-OnHit : (S : Bytes → Type 0) (r : Option Token) → OnHit S (pass_bits r)
unfolding pass_bits
pass_bits-OnHit S none = tt
pass_bits-OnHit S (some t) = pass_token-OnHit S t

compare_bits-OnHit :
    (S : Token → Type 0) (lit : LiteralValue) (r : Option Token)
    → ((t : Token) → r ≡ some t → S t)
    → OnHit (λ end. S (lit.value, end)) (compare_bits lit r)
unfolding compare_bits
compare_bits-OnHit S lit none f = tt
compare_bits-OnHit S lit (some t) f = compare_token-OnHit S lit t (f t refl)

compare_int-OnHit :
    (S : Token → Type 0) (lit : LiteralValue) (t : Token)
    → (has_fraction t.0 ≡ false → S t)
    → OnHit (λ end. S (lit.value, end)) (compare_int lit t)
unfolding compare_int
compare_int-OnHit S lit (value, end) f =
    decided (OnHit (λ e. S (lit.value, e))) (has_fraction value) (λ h. tt)
      (λ h. compare_token-OnHit S lit (value, end) (f h))

pass_over-OnHit : (S : Bytes → Type 0) (c : ℕ) (rest : Bytes) → OnHit S (pass_over c rest)
unfolding pass_over
pass_over-OnHit S c rest = branches (OnHit S) (c == b'\'') (pass_token-OnHit S (read_quoted rest)) (
    branches (OnHit S) (is_e_prefix c rest) (pass_token-OnHit S (read_e_string (drop 1 rest))) (
      branches (OnHit S) (c == b'$') (pass_token-OnHit S (read_dollar_quoted rest)) (
        branches (OnHit S) (is_bit_prefix c rest)
          (pass_bits-OnHit S (read_bit_string c (drop 1 rest))) tt)))

abbrev UpTo : LitKind → LiteralValue → ℕ → Bytes → Bytes → Type 0
UpTo k lit c rest end = Spells k c rest (lit.value, end)

try_match-OnHit :
    (k : LitKind) (lit : LiteralValue) (c : ℕ) (rest : Bytes)
    → OnHit (UpTo k lit c rest) (try_match k lit c rest)
unfolding try_match
try_match-OnHit lit_string lit c rest =
    let P = OnHit (UpTo lit_string lit c rest) in
    guarded P (c == b'\'')
      (λ h. compare_token-OnHit (Spells lit_string c rest) lit (read_quoted rest) (inl (h, refl)))
      (guarded P (is_e_prefix c rest)
        (λ h.
          compare_token-OnHit (Spells lit_string c rest) lit (read_e_string (drop 1 rest))
            (inr (h, refl)))
        (branches P (c == b'$')
          (pass_token-OnHit (UpTo lit_string lit c rest) (read_dollar_quoted rest))
          (pass_over-OnHit (UpTo lit_string lit c rest) c rest)))
try_match-OnHit lit_int lit c rest =
    guarded (OnHit (UpTo lit_int lit c rest)) (is_digit c)
      (λ h.
        compare_int-OnHit (Spells lit_int c rest) lit (read_number (c ∷ rest)) (λ k. (h, k, refl)))
      (pass_over-OnHit (UpTo lit_int lit c rest) c rest)
try_match-OnHit lit_float lit c rest =
    guarded (OnHit (UpTo lit_float lit c rest)) (is_digit c || c == b'.' && starts_with_digit rest)
      (λ h. compare_token-OnHit (Spells lit_float c rest) lit (read_number (c ∷ rest)) (h, refl))
      (pass_over-OnHit (UpTo lit_float lit c rest) c rest)
try_match-OnHit lit_bit_str lit c rest =
    guarded (OnHit (UpTo lit_bit_str lit c rest)) (is_bit_prefix c rest)
      (λ h.
        compare_bits-OnHit (Spells lit_bit_str c rest) lit (read_bit_string c (drop 1 rest))
          (λ t eq. (h, eq)))
      (pass_over-OnHit (UpTo lit_bit_str lit c rest) c rest)

advance-OnHit :
    (lit : LiteralValue) (c : ℕ) (rest : Bytes)
    → OnHit (UpTo lit.kind lit c rest) (advance lit c rest)
unfolding advance
advance-OnHit lit c rest =
    let P = OnHit (UpTo lit.kind lit c rest) in
    branches P (is_ws c) tt (
      branches P (c == b'-' && starts_with b'-' rest) tt (
        branches P (c == b'/' && starts_with b'*' rest) tt
          (branches P (c == b'"') tt (try_match-OnHit lit.kind lit c rest))))

-- A literal's token stands between two positions.
pub data Occurs (lit : LiteralValue) : Bytes → Bytes → Type 0 where
  spelled :
      (c : ℕ) (rest end : Bytes)
      → Spells lit.kind c rest (lit.value, end)
      → IsSuffix end rest
      → Occurs lit (c ∷ rest) end

-- What a search from `src` gives.
abbrev pub Located : LiteralValue → Bytes → Found → Type 0
Located lit src (found start end) = IsSuffix start src × Occurs lit start end
Located lit src missing = Unit {0}
Located lit src panicked = Unit {0}
Located lit src out_of_fuel = Unit {0}

widen :
    (lit : LiteralValue) (c : ℕ) (next rest : Bytes) (f : Found)
    → IsSuffix next rest
    → Located lit next f
    → Located lit (c ∷ rest) f
widen lit c next rest (found start end) h l = (behind c (further l.0 h), l.1)
widen lit c next rest missing h l = tt
widen lit c next rest panicked h l = tt
widen lit c next rest out_of_fuel h l = tt

moved :
    (fuel : ℕ) (lit : LiteralValue) (c : ℕ) (rest : Bytes) (m : Move)
    → MovesOn rest m
    → OnHit (UpTo lit.kind lit c rest) m
    → ((next : Bytes) → Located lit next (find_next_literal fuel lit next))
    → Located lit (c ∷ rest) (elim m [
      | skip_to next ↦ find_next_literal fuel lit next
      | hit end ↦ found (c ∷ rest) end
      | panics ↦ panicked
    ])
moved fuel lit c rest (skip_to next) h s ih =
    widen lit c next rest (find_next_literal fuel lit next) h (ih next)
moved fuel lit c rest (hit end) h s ih = (at, spelled c rest end s h)
moved fuel lit c rest panics h s ih = tt

pub find_next_literal-Located :
    (fuel : ℕ) (lit : LiteralValue) (src : Bytes) → Located lit src (find_next_literal fuel lit src)
unfolding find_next_literal
find_next_literal-Located fuel lit [] = tt
find_next_literal-Located zero lit (c ∷ rest) = tt
find_next_literal-Located (suc fuel) lit (c ∷ rest) =
    moved fuel lit c rest (advance lit c rest) (advance-MovesOn lit c rest)
      (advance-OnHit lit c rest) (find_next_literal-Located fuel lit)

-- What the search finds lies in the text from the position on, and begins with a token of the
-- literal's own kind that the reader of that kind reads as the literal's value, up to the end
-- that the search returns; the end is behind the start.
pub find_next_literal-found :
    (fuel : ℕ) (lit : LiteralValue) (src start end : Bytes)
    → find_next_literal fuel lit src ≡ found start end
    → IsSuffix start src × Occurs lit start end
find_next_literal-found fuel lit src start end eq =
    subst (Located lit src) eq (find_next_literal-Located fuel lit src)
