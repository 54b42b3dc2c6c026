-- ===== src/Gateway/Cases.antt =====
-- What holds of every branch holds of the choice among them.
use messaging_app.Prelude.{
  Bool, Option, Result, err, false, if◌then◌else◌, none, ok, refl, some, true, ◌≡◌,
}

pub if_both {ℓ κ} :
    {A : Type ℓ} (P : A → Type κ) (b : Bool) (x y : A)
    → (b ≡ true → P x)
    → (b ≡ false → P y)
    → P (if b then x else y)
if_both P true x y hx hy = hx refl
if_both P false x y hx hy = hy refl

pub result_both {ℓ κ} :
    {E A : Type 0} {B : Type ℓ} (P : B → Type κ) (r : Result E A) (bad : E → B) (good : A → B)
    → ((e : E) → P (bad e))
    → ((a : A) → P (good a))
    → P (elim r as (λ _. B) [ err e ↦ bad e | ok a ↦ good a ])
result_both P (err e) bad good hb hg = hb e
result_both P (ok a) bad good hb hg = hg a

pub option_both {ℓ κ} :
    {A : Type 0} {B : Type ℓ} (P : B → Type κ) (o : Option A) (without : B) (good : A → B)
    → (o ≡ none → P without)
    → ((a : A) → o ≡ some a → P (good a))
    → P (elim o as (λ _. B) [ none ↦ without | some a ↦ good a ])
option_both P none without good hb hg = hb refl
option_both P (some a) without good hb hg = hg a refl
