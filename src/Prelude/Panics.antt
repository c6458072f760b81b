-- ===== src/Prelude/Panics.antt =====
-- A Go computation that may panic (an index out of range, a nil pointer).

use mathlib.Core.Path.{◌≡◌, refl}
use mathlib.Core.Logic.{◌⊎◌, inl, inr}

pub data Outcome {ℓ} (A : Type ℓ) : Type ℓ where
  done : A → Outcome A
  panic : Outcome A

infixl 5 ◌>>=◌
abbrev pub ◌>>=◌ {ℓ κ} : {A : Type ℓ} {B : Type κ} → Outcome A → (A → Outcome B) → Outcome B
done a >>= f = f a
panic >>= f = panic

-- The computation ends without a panic, in a value with the property.
abbrev pub Returns {ℓ} : {A : Type ℓ} → (A → Type 0) → Outcome A → Type 0
Returns P (done a) = P a
Returns P panic = ⊥

pub >>=-Returns {ℓ κ} :
    {A : Type ℓ} {B : Type κ} (P : A → Type 0) (Q : B → Type 0) (m : Outcome A) (f : A → Outcome B)
    → Returns P m
    → ((a : A) → P a → Returns Q (f a))
    → Returns Q (m >>= f)
>>=-Returns P Q (done a) f h k = k a h
>>=-Returns P Q panic f h k = absurd h

pub Outcome-cases {ℓ} : {A : Type ℓ} (m : Outcome A) → ((a : A) × (m ≡ done a)) ⊎ (m ≡ panic)
Outcome-cases (done a) = inl (a, refl)
Outcome-cases panic = inr refl
