-- ===== src/Prelude/Outcome.antt =====
-- Go's `(value, error)` pair as a sum over a component's own type of errors.
use mathlib.Core.Bool.{Bool, false, true}
use mathlib.Core.Logic.{inl, inr, ◌⊎◌}
use mathlib.Core.Path.{refl, ◌≡◌}

pub data Result {ℓ} (E A : Type ℓ) : Type ℓ where
  ok : A → Result E A
  err : E → Result E A

infixl 5 ◌>>=◌ ◌>>◌
abbrev pub ◌>>=◌ {ℓ} : {E A B : Type ℓ} → Result E A → (A → Result E B) → Result E B
ok a >>= f = f a
err e >>= f = err e

abbrev pub ◌>>◌ {ℓ} : {E A B : Type ℓ} → Result E A → Result E B → Result E B
m >> k = m >>= λ _. k

-- `if bad { return err }`
abbrev pub refuse {ℓ} : {E : Type ℓ} → Bool → E → Result E (Unit {ℓ})
refuse true e = err e
refuse false e = ok tt

-- A split on a result that keeps the equation.
pub Result-cases {ℓ} :
    {E A : Type ℓ} (r : Result E A) → ((e : E) × (r ≡ err e)) ⊎ ((a : A) × (r ≡ ok a))
Result-cases (err e) = inl (e, refl)
Result-cases (ok a) = inr (a, refl)

-- What follows a check that did not refuse.
pub refuse_bind {ℓ} :
    {E B : Type ℓ} (t : Bool) (e : E) (k : Result E B) {b : B}
    → (refuse t e >> k) ≡ ok b
    → (t ≡ false) × (k ≡ ok b)
refuse_bind true e k h = cc
refuse_bind false e k h = (refl, h)
