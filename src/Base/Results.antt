-- ===== src/Base/Results.antt =====
-- Go's pair of a value and an error, as a sum.
use gghstats.Base.Text.{Text}
use mathlib.Core.Path.{◌≡◌, refl}
use mathlib.Core.Logic.{◌⊎◌, inl, inr}

-- The error is its message.
pub data Result {ℓ} (Value : Type ℓ) : Type ℓ where
  err : Text → Result Value
  ok : Value → Result Value

-- `if err != nil { return …, err }`, and then the rest of the function.
abbrev pub ◌>>=◌ {ℓ κ} : {V : Type ℓ} → {W : Type κ} → Result V → (V → Result W) → Result W
r >>= rest = elim r [ err message ↦ err message | ok v ↦ rest v ]

infixl 5 ◌>>=◌
-- A result is an error, or its value has the property.
abbrev pub AllOk {ℓ κ} : {V : Type ℓ} → (V → Type κ) → Result V → Type κ
AllOk P (err e) = Unit
AllOk P (ok v) = P v

pub bind-AllOk {ℓ κ μ ν} :
    {V : Type ℓ} {W : Type κ} (P : V → Type μ) (Q : W → Type ν) (r : Result V) (f : V → Result W)
    → AllOk P r
    → ((v : V) → P v → AllOk Q (f v))
    → AllOk Q (r >>= f)
bind-AllOk P Q (err e) f h k = tt
bind-AllOk P Q (ok v) f h k = k v h

pub Result-cases {ℓ} :
    {V : Type ℓ} (r : Result V) → ((e : Text) × (r ≡ err e)) ⊎ ((v : V) × (r ≡ ok v))
Result-cases (err e) = inl (e, refl)
Result-cases (ok v) = inr (v, refl)
