-- ===== src/Sql/Decimal.antt =====
-- `fmt.Sprintf("%d", n)` for the numbers of parameters and of integer literals.
use pgfox.Prelude.{
  ℕ, zero, suc, ◌+◌, ◌-◌, ◌*◌, ◌/◌, ◌%◌, ◌<◌, [], ◌∷◌, ◌++◌, if◌then◌else◌, ltb, ◌≡◌, refl, ◌∙◌, ap,
  arith, decided,
}
use pgfox.Prelude.Bytes.{Bytes}

-- The digits of `n`, the last one last; the fuel bounds their number.
unfoldable digits_of : ℕ → ℕ → Bytes
digits_of zero n = []
digits_of (suc fuel) n =
    let high = digits_of fuel (n / 10) in
    if ltb n 10 then (b'0' + n) ∷ [] else high ++ (b'0' + n % 10) ∷ []

unfoldable pub decimal : ℕ → Bytes
unfolding digits_of
decimal n = digits_of (suc n) n

-- The number that digits stand for.
pub number_of : ℕ → Bytes → ℕ
number_of acc [] = acc
number_of acc (c ∷ cs) = number_of (acc * 10 + (c - b'0')) cs

number_of-last :
    (acc : ℕ) (cs : Bytes) (c : ℕ)
    → number_of acc (cs ++ c ∷ []) ≡ number_of acc cs * 10 + (c - b'0')
unfolding number_of
number_of-last acc [] c = refl
number_of-last acc (d ∷ cs) c = number_of-last (acc * 10 + (d - b'0')) cs c

number_of-digits_of : (fuel n : ℕ) → n < fuel → number_of 0 (digits_of fuel n) ≡ n
unfolding digits_of number_of
number_of-digits_of zero n h = omega (arith, h)
number_of-digits_of (suc fuel) n h =
    decided (λ s. number_of 0 s ≡ n) (ltb n 10) (λ _. omega arith)
      (λ big.
        number_of-last 0 (digits_of fuel (n / 10)) (b'0' + n % 10)
        ∙ ap (λ k. k * 10 + (b'0' + n % 10 - b'0'))
            (number_of-digits_of fuel (n / 10) (ground (arith, h, big)))
        ∙ omega arith)

-- The fuel is enough: the digits printed stand for the number.
pub number_of-decimal : (n : ℕ) → number_of 0 (decimal n) ≡ n
unfolding decimal
number_of-decimal n = number_of-digits_of (suc n) n (omega arith)

pub data ℤ : Type 0 where
  pos : ℕ → ℤ
  negsuc : ℕ → ℤ

unfoldable pub decimal_int : ℤ → Bytes
unfolding decimal
decimal_int (pos n) = decimal n
decimal_int (negsuc n) = b'-' ∷ decimal (suc n)
