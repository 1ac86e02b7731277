-- ===== src/GoStrings/Decimal.antt =====
-- `%d` of a number that is not negative.
use local_engineer.Prelude.{
  arith, true, not, all, ◌==◌, ℕ, zero, suc, ◌+◌, ◌/◌, ◌%◌, [], ◌∷◌, ◌≡◌, refl, ltb, if◌then◌else◌,
}
use local_engineer.GoStrings.{Text, codes}

-- The digits are put before `rest`, the last one first; one round of fuel is enough for a digit.
digits_from : ℕ → ℕ → Text → Text
digits_from zero n rest = rest
digits_from (suc fuel) n rest =
    let more = digits_from fuel (n / 10) ((b'0' + n % 10) ∷ rest) in
    if ltb n 10 then (b'0' + n) ∷ rest else more

unfoldable pub decimal : ℕ → Text
unfolding digits_from
decimal n = digits_from (suc n) n []

decimal_runs : decimal 1207 ≡ codes "1207"
unfolding decimal
decimal_runs = refl

digits_from-plain :
    (fuel n : ℕ) (rest : Text)
    → all (λ c. not (c == 10)) rest ≡ true
    → all (λ c. not (c == 10)) (digits_from fuel n rest) ≡ true
unfolding digits_from
digits_from-plain zero n rest h = h
digits_from-plain (suc fuel) n rest h =
    ground (arith, h, digits_from-plain fuel (n / 10) ((b'0' + n % 10) ∷ rest))

-- A number is printed on one line.
pub decimal-plain : (n : ℕ) → all (λ c. not (c == 10)) (decimal n) ≡ true
unfolding decimal
decimal-plain n = digits_from-plain (suc n) n [] refl
