-- ===== src/Prelude/Result.antt =====
-- Errors as values: Go's `(value, error)`. The error is what the source puts in `fmt.Errorf`.
pub data Result {ℓ} (E : Type ℓ) (A : Type ℓ) : Type ℓ where
  ok : A → Result E A
  err : E → Result E A

-- `if err != nil { return err }`, for `do` blocks.
infixl 5 ◌>>=◌
abbrev pub ◌>>=◌ {ℓ} : {E A B : Type ℓ} → Result E A → (A → Result E B) → Result E B
err failure >>= next = err failure
ok value >>= next = next value
