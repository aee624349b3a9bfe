-- ===== src/Outcome.antt =====
-- How a function of the program ends: it returns, it ends the process by `ERR`, or it uses memory
-- that it must not use.
use unix_backup_c.Common.{◌≡◌, refl, ◌⊎◌, inl, inr, Option, none, some}

pub data Outcome {ℓ} (A : Type ℓ) : Type ℓ where
  ok : A → Outcome A
  exited : Outcome A
  fault : Outcome A

abbrev pub and_then {ℓ κ} : {A : Type ℓ} {B : Type κ} → Outcome A → (A → Outcome B) → Outcome B
and_then (ok a) f = f a
and_then exited f = exited
and_then fault f = fault

-- The value, where the function returns; it does not tell a fault from the end of the process.
abbrev pub returned {ℓ} : {A : Type ℓ} → Outcome A → Option A
returned (ok a) = some a
returned exited = none
returned fault = none

pub and_then-eq-ok :
    {A B : Type 0} (m : Outcome A) (f : A → Outcome B) (b : B)
    → and_then m f ≡ ok b
    → (a : A) × (m ≡ ok a) × (f a ≡ ok b)
and_then-eq-ok (ok a) f b e = (a, refl, e)
and_then-eq-ok exited f b e = absurd (cc)
and_then-eq-ok fault f b e = absurd (cc)

pub Outcome-cases :
    {A : Type 0} (m : Outcome A) → ((a : A) × (m ≡ ok a)) ⊎ ((m ≡ exited) ⊎ (m ≡ fault))
Outcome-cases (ok a) = inl (a, refl)
Outcome-cases exited = inr (inl refl)
Outcome-cases fault = inr (inr refl)
