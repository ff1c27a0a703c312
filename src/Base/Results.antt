-- ===== src/Base/Results.antt =====
-- Results: `Result<T, AppError>` of error.rs, with a third case for a panic.

use mathlib.Core.Logic.{◌⊎◌, inl, inr}
use mathlib.Core.Path.{◌≡◌, refl}

-- The messages that the source formats into its errors are left out.
pub data AppError : Type 0 where
  config ingestion storage query execution io : AppError

pub data AppResult {ℓ} (A : Type ℓ) : Type ℓ where
  ok : A → AppResult A
  err : AppError → AppResult A
  panic : AppResult A

infixl 5 ◌>>=◌ ◌>>◌
abbrev pub ◌>>=◌ {ℓ κ} : {A : Type ℓ} {B : Type κ} → AppResult A → (A → AppResult B) → AppResult B
ok a >>= f = f a
err e >>= f = err e
panic >>= f = panic

abbrev pub ◌>>◌ {ℓ} : {B : Type ℓ} → AppResult (Unit {0}) → AppResult B → AppResult B
m >> k = m >>= λ _. k

-- Inversion of a bind that succeeds.
pub >>=-eq-ok {ℓ κ} :
    {A : Type ℓ} {B : Type κ} (r : AppResult A) (f : A → AppResult B) {b : B}
    → (r >>= f) ≡ ok b
    → (a : A) × (r ≡ ok a) × (f a ≡ ok b)
>>=-eq-ok (ok a) f h = (a, refl, h)
>>=-eq-ok (err e) f h = cc
>>=-eq-ok panic f h = cc

pub ok-injective {ℓ} : {A : Type ℓ} (a b : A) → ok a ≡ ok b → a ≡ b
ok-injective a b h = cc

pub AppResult-cases {ℓ} :
    {A : Type ℓ} (r : AppResult A)
    → ((a : A) × (r ≡ ok a)) ⊎ ((e : AppError) × (r ≡ err e)) ⊎ (r ≡ panic)
AppResult-cases (ok a) = inl (a, refl)
AppResult-cases (err e) = inr (inl (e, refl))
AppResult-cases panic = inr (inr refl)

-- What failed did not succeed.
pub no_err {ℓ} : {A : Type ℓ} {a : A} (e : AppError) → err e ≡ ok a → ⊥
no_err e h = cc

pub no_panic {ℓ} : {A : Type ℓ} {a : A} → panic ≡ ok a → ⊥
no_panic h = cc
