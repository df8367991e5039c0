-- ===== src/Base/Results.antt =====
-- What a call gives back: a value, or the error that it throws; and transactions, which keep
-- the new state on a value and drop it on an error.
use mathlib.Core.Path.{◌≡◌, refl}
use mathlib.Core.Logic.{◌⊎◌, inl, inr}
use mathlib.Core.Bool.{Bool, true, false}

pub data Result {ℓ κ} (E : Type ℓ) (A : Type κ) : Type (ℓ ⊔ κ) where
  ok : A → Result E A
  err : E → Result E A

abbrev pub is_ok {ℓ κ} : {E : Type ℓ} {A : Type κ} → Result E A → Bool
is_ok (ok _) = true
is_ok (err _) = false

-- `prisma.$transaction`: an error rolls the state back.
abbrev pub commit {ℓ κ μ} :
    {S : Type ℓ} {E : Type κ} {A : Type μ} → S → Result E (A × S) → Result E A × S
commit s (ok (a, s')) = (ok a, s')
commit s (err e) = (err e, s)

pub Result-cases {ℓ κ} :
    {E : Type ℓ} {A : Type κ} (r : Result E A) → ((a : A) × (r ≡ ok a)) ⊎ ((e : E) × (r ≡ err e))
Result-cases (ok a) = inl (a, refl)
Result-cases (err e) = inr (e, refl)
