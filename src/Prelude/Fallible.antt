-- ===== src/Prelude/Fallible.antt =====
-- Go's `(value, error)` results: a value, or an error.
use mathlib.Core.Path.{◌≡◌, refl, ap}
use mathlib.Core.Logic.{◌⊎◌, inl, inr}

pub data Result {ℓ κ} (E : Type ℓ) (A : Type κ) : Type (ℓ ⊔ κ) where
  ok : A → Result E A
  err : E → Result E A

module _ {ℓ κ} {E : Type ℓ} {A : Type κ} where
  infixl 5 ◌>>=◌
  abbrev pub ◌>>=◌ {μ} : {B : Type μ} → Result E A → (A → Result E B) → Result E B
  err e >>= next = err e
  ok a >>= next = next a

  -- The reason of a result that failed.
  reason : E → Result E A → E
  reason d (ok a) = d
  reason d (err e) = e

  pub err-injective : {d e : E} → ◌≡◌ {A = Result E A} (err d) (err e) → d ≡ e
  unfolding reason
  err-injective {d} h = ap (reason d) h

  -- No result is both a failure and a value.
  pub err-ne-ok {μ} : (P : Type μ) {e : E} {a : A} → ◌≡◌ {A = Result E A} (err e) (ok a) → P
  err-ne-ok P h = cc

  -- A failed bind failed in its first part, or past it.
  pub >>=-eq-err {μ} :
      {B : Type μ} (m : Result E A) (next : A → Result E B) {e : E}
      → (m >>= next) ≡ err e
      → (m ≡ err e) ⊎ ((a : A) × (m ≡ ok a) × (next a ≡ err e))
  >>=-eq-err (err d) next h = inl (ap {B = Result E A} err (cc))
  >>=-eq-err (ok a) next h = inr (a, refl, h)

  -- A bind that returns a value had one to go on with.
  pub >>=-eq-ok {μ} :
      {B : Type μ} (m : Result E A) (next : A → Result E B) {b : B}
      → (m >>= next) ≡ ok b
      → (a : A) × (m ≡ ok a) × (next a ≡ ok b)
  >>=-eq-ok (err d) next h = cc
  >>=-eq-ok (ok a) next h = (a, refl, h)

infixl 5 ◌>>◌
abbrev pub ◌>>◌ {ℓ μ} : {E : Type ℓ} {B : Type μ} → Result E (Unit {0}) → Result E B → Result E B
check >> rest = check >>= λ _. rest
