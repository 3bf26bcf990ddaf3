-- ===== src/Base/Results.antt =====
-- Go's `(value, error)`: a result that is a value or an error.
use mathlib.Core.Path.{◌≡◌, refl}
use mathlib.Core.Logic.{◌⊎◌, inl, inr}

pub data Result {ℓ κ} (Failure : Type ℓ) (Value : Type κ) : Type (ℓ ⊔ κ) where
  err : Failure → Result Failure Value
  ok : Value → Result Failure Value

-- `if err != nil { return err }`
infixl 5 ◌>>=◌
abbrev pub ◌>>=◌ {ℓ κ μ} :
    {Failure : Type ℓ} {Value : Type κ} {Next : Type μ}
    → Result Failure Value
    → (Value → Result Failure Next)
    → Result Failure Next
err reason >>= continue = err reason
ok value >>= continue = continue value

-- A successful sequence has a successful first part, and the rest succeeds on its value.
pub >>=-eq-ok {ℓ κ μ} :
    {Failure : Type ℓ} {Value : Type κ} {Next : Type μ} (m : Result Failure Value)
    (continue : Value → Result Failure Next) {b : Next}
    → (m >>= continue) ≡ ok b
    → (a : Value) × (m ≡ ok a) × (continue a ≡ ok b)
>>=-eq-ok (ok a) continue h = (a, refl, h)
>>=-eq-ok (err reason) continue h = cc

-- A result is a value or an error.
pub Result-cases {ℓ κ} :
    {Failure : Type ℓ} {Value : Type κ} (r : Result Failure Value)
    → ((a : Value) × (r ≡ ok a)) ⊎ ((e : Failure) × (r ≡ err e))
Result-cases (ok a) = inl (a, refl)
Result-cases (err e) = inr (e, refl)

pub ok-injective {ℓ κ} :
    {Failure : Type ℓ} {Value : Type κ} {a b : Value}
    → ◌≡◌ {A = Result Failure Value} (ok a) (ok b)
    → a ≡ b
ok-injective e = cc
