-- ===== src/Listen/Client/Names.antt =====
-- The words of a LISTEN or UNLISTEN command: `strings.Fields`, `strings.Trim`, `strings.TrimRight`
-- and `strings.EqualFold` on ASCII, as pkg/pgfox/listen_notify.go uses them.
use pgfox.Prelude.{
  ℕ, ◌+◌, Bool, true, false, ◌&&◌, ◌||◌, List, [], ◌∷◌, ◌++◌, if◌then◌else◌, ◌==◌, leb, ◌≡◌, ◌≢◌,
  refl, sym, append_assoc, ap, ◌∙◌, arith,
}
use pgfox.Prelude.Bytes.{Bytes, equal, equal_refl}

abbrev is_space : ℕ → Bool
is_space c = c == b' ' || leb 9 c && leb c 13

-- The first word of the rest, and the words behind it; `[]` for no word.
fields_from : Bytes → Bytes × List Bytes
fields_from [] = ([], [])
fields_from (c ∷ cs) =
    let (word, words) = fields_from cs in
    if is_space c then ([], if equal word [] then words else word ∷ words) else (c ∷ word, words)

-- `strings.Fields`
unfoldable pub fields : Bytes → List Bytes
unfolding fields_from
fields s = let (word, words) = fields_from s in if equal word [] then words else word ∷ words

-- `strings.TrimLeft` and `TrimRight` with a cutset of one byte.
unfoldable pub trim_left : ℕ → Bytes → Bytes
trim_left q [] = []
trim_left q (c ∷ cs) = let rest = trim_left q cs in if c == q then rest else c ∷ cs

unfoldable pub trim_right : ℕ → Bytes → Bytes
trim_right q [] = []
trim_right q (c ∷ cs) =
    let rest = trim_right q cs in if equal rest [] && c == q then [] else c ∷ rest

-- `strings.TrimRight(strings.Trim(parts[1], "\""), ";")`
unfoldable pub channel_name : Bytes → Bytes
channel_name word = trim_right b';' (trim_right b'"' (trim_left b'"' word))

-- `unicode.ToLower` on ASCII.
to_lower : ℕ → ℕ
to_lower c = if leb b'A' c && leb c b'Z' then c + 32 else c

unfoldable pub equal_fold : Bytes → Bytes → Bool
unfolding to_lower
equal_fold [] [] = true
equal_fold (x ∷ xs) (y ∷ ys) = to_lower x == to_lower y && equal_fold xs ys
equal_fold _ _ = false

-- No byte of the word is a quote or a semicolon.
abbrev pub Plain : Bytes → Type 0
Plain [] = Unit {0}
Plain (c ∷ cs) = (c ≢ b'"') × (c ≢ b';') × Plain cs

abbrev Avoids : ℕ → Bytes → Type 0
Avoids q [] = Unit {0}
Avoids q (c ∷ cs) = (c ≢ q) × Avoids q cs

no_quote : (s : Bytes) → Plain s → Avoids b'"' s
no_quote [] h = tt
no_quote (c ∷ cs) h = (h.0, no_quote cs h.2)

no_semicolon : (s : Bytes) → Plain s → Avoids b';' s
no_semicolon [] h = tt
no_semicolon (c ∷ cs) h = (h.1, no_semicolon cs h.2)

trim_left-head : (q c : ℕ) (s : Bytes) → c ≢ q → trim_left q (c ∷ s) ≡ c ∷ s
unfolding trim_left
trim_left-head q c s h = ground arith

trim_left-quote : (q : ℕ) (s : Bytes) → trim_left q (q ∷ s) ≡ trim_left q s
unfolding trim_left
trim_left-quote q s = ground arith

not-empty : (s : Bytes) (c : ℕ) (rest : Bytes) → equal (s ++ c ∷ rest) [] ≡ false
unfolding equal
not-empty [] c rest = refl
not-empty (x ∷ s) c rest = refl

trim_right-Avoids : (q : ℕ) (s : Bytes) → Avoids q s → trim_right q s ≡ s
unfolding trim_right
trim_right-Avoids q [] h = refl
trim_right-Avoids q (c ∷ cs) h = ground (arith, trim_right-Avoids q cs h.1)

trim_right-last : (q : ℕ) (s : Bytes) → trim_right q (s ++ q ∷ []) ≡ trim_right q s
unfolding trim_right
trim_right-last q [] = ground (arith, equal_refl [])
trim_right-last q (c ∷ cs) = rw (trim_right-last q cs)

trim_right-other : (q : ℕ) (s : Bytes) (c : ℕ) → c ≢ q → trim_right q (s ++ c ∷ []) ≡ s ++ c ∷ []
unfolding trim_right
trim_right-other q [] c h = ground arith
trim_right-other q (x ∷ s) c h = ground (arith, trim_right-other q s c h, not-empty s c [])

-- The name that LISTEN and UNLISTEN read from a word. For a name that is not empty and holds
-- neither a quote nor a semicolon, the bare name, the quoted name and the bare name with a
-- semicolon all give the name. The quoted name with a semicolon behind it gives the name with the
-- closing quote still on it: quotes are trimmed first, when a semicolon stands last.
pub channel_name_lem :
    (c : ℕ) (s : Bytes)
    → Plain (c ∷ s)
    → let name = c ∷ s in
      (channel_name name ≡ name)
      × (channel_name (b'"' ∷ (name ++ b'"' ∷ [])) ≡ name)
      × (channel_name (name ++ b';' ∷ []) ≡ name)
      × (channel_name (b'"' ∷ (name ++ b'"' ∷ b';' ∷ [])) ≡ name ++ b'"' ∷ [])
unfolding channel_name
channel_name_lem c s h =
    let name = c ∷ s in
    let head = λ (rest : Bytes). trim_left-head b'"' c (s ++ rest) h.0 in
    let cut = trim_right b';' in
    let bare = trim_right-Avoids b';' name (no_semicolon name h) in
    let unquoted = trim_right-Avoids b'"' name (no_quote name h) in
    (
      ap (λ w. cut (trim_right b'"' w)) (trim_left-head b'"' c s h.0) ∙ ap cut unquoted ∙ bare,
      ap (λ w. cut (trim_right b'"' w)) (trim_left-quote b'"' _ ∙ head (b'"' ∷ []))
          ∙ ap cut (trim_right-last b'"' name ∙ unquoted)
          ∙ bare,
      ap (λ w. cut (trim_right b'"' w)) (head (b';' ∷ []))
          ∙ ap cut (trim_right-other b'"' name b';' (omega arith))
          ∙ trim_right-last b';' name
          ∙ bare,
      ap (λ w. cut (trim_right b'"' w)) (trim_left-quote b'"' _ ∙ head (b'"' ∷ b';' ∷ []))
          ∙ ap (λ w. cut (trim_right b'"' w)) (sym (append_assoc name (b'"' ∷ []) (b';' ∷ [])))
          ∙ ap cut (trim_right-other b'"' (name ++ b'"' ∷ []) b';' (omega arith))
          ∙ trim_right-last b';' (name ++ b'"' ∷ [])
          ∙ trim_right-other b';' name b'"' (omega arith),
    )
