-- ===== src/Prelude/Outcome.antt =====
-- `std::result::Result`: an error ends a chain of steps, as `?` does.
use mathlib.Core.Path.{◌≡◌, refl}
use mathlib.Core.Logic.{◌⊎◌, inl, inr}

pub data Result {ℓ κ} (Fail : Type ℓ) (Value : Type κ) : Type (ℓ ⊔ κ) where
  err : Fail → Result Fail Value
  ok : Value → Result Fail Value

module _ {ℓ κ μ} {Fail : Type ℓ} {Value : Type κ} {Next : Type μ} where
  abbrev pub and_then : Result Fail Value → (Value → Result Fail Next) → Result Fail Next
  and_then (err e) step = err e
  and_then (ok v) step = step v

-- To split on a result and keep the equation.
pub Result-cases {ℓ κ} :
    {Fail : Type ℓ} {Value : Type κ} (r : Result Fail Value)
    → ((e : Fail) × (r ≡ err e)) ⊎ ((v : Value) × (r ≡ ok v))
Result-cases (err e) = inl (e, refl)
Result-cases (ok v) = inr (v, refl)
