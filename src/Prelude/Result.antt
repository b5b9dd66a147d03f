-- ===== src/Prelude/Result.antt =====
-- `anyhow::Result`: the error is a type of the component's own, one constructor for each sentence.
use mathlib.Core.Path.{◌≡◌, refl}
use mathlib.Core.Bool.{Bool, true, false}
use mathlib.Core.Option.{Option, none, some}

pub data Result {ℓ κ} (E : Type ℓ) (A : Type κ) : Type (ℓ ⊔ κ) where
  ok : A → Result E A
  err : E → Result E A

module _ {ℓ} {E : Type ℓ} where
  infixl 5 ◌>>=◌ ◌>>◌
  abbrev pub ◌>>=◌ {κ μ} : {A : Type κ} {B : Type μ} → Result E A → (A → Result E B) → Result E B
  ok a >>= f = f a
  err e >>= f = err e

  abbrev pub ◌>>◌ {κ} : {B : Type κ} → Result E (Unit {0}) → Result E B → Result E B
  m >> k = m >>= λ _. k

  -- `if bad { bail!(e) }`
  abbrev pub bail_if : Bool → E → Result E (Unit {0})
  bail_if true e = err e
  bail_if false e = ok tt

  -- `.context(e)?` on an `Option`
  abbrev pub or_err {κ} : {A : Type κ} → Option A → E → Result E A
  or_err none e = err e
  or_err (some a) e = ok a

  pub bind-eq-ok {κ μ} :
      {A : Type κ} {B : Type μ} (m : Result E A) (f : A → Result E B) {b : B}
      → (m >>= f) ≡ ok b
      → (a : A) × (m ≡ ok a) × (f a ≡ ok b)
  bind-eq-ok (ok a) f h = (a, refl, h)
  bind-eq-ok (err e) f h = cc
