-- ===== src/Prelude/Results.antt =====
-- Results of fallible calls. A Go function that returns only an `error` is an `Option`: `none` is
-- the nil error. One that returns a value and an error is a `Result`.
use mathlib.Core.Path.{◌≡◌, refl}
use mathlib.Core.Logic.{◌⊎◌, inl, inr}
use mathlib.Core.Option.{Option, none, some}

pub data Result {ℓ κ} (E : Type ℓ) (A : Type κ) : Type (ℓ ⊔ κ) where
  ok : A → Result E A
  err : E → Result E A

infixl 5 ◌>>=◌
abbrev pub ◌>>=◌ {ℓ κ μ} :
    {E : Type ℓ} {A : Type κ} {B : Type μ} → Result E A → (A → Result E B) → Result E B
ok a >>= f = f a
err e >>= f = err e

-- `if err := check(); err != nil { return err }` before the rest.
infixr 6 ◌then_check◌
abbrev pub ◌then_check◌ {ℓ} : {E : Type ℓ} → Option E → Option E → Option E
none then_check rest = rest
some e then_check rest = some e

pub then_check-left {ℓ} :
    {E : Type ℓ} (first second : Option E) → (first then_check second) ≡ none → first ≡ none
then_check-left none second h = refl
then_check-left (some e) second h = cc

pub then_check-right {ℓ} :
    {E : Type ℓ} (first second : Option E) → (first then_check second) ≡ none → second ≡ none
then_check-right none second h = h
then_check-right (some e) second h = cc

pub Result-cases {ℓ κ} :
    {E : Type ℓ} {A : Type κ} (r : Result E A) → ((a : A) × (r ≡ ok a)) ⊎ ((e : E) × (r ≡ err e))
Result-cases (ok a) = inl (a, refl)
Result-cases (err e) = inr (e, refl)
