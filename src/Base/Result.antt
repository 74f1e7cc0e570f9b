-- ===== src/Base/Result.antt =====
-- A Go function's pair of a value and an error: a value, or the reason why there is none.
use mathlib.Core.Path.{◌≡◌, refl}
use mathlib.Core.Bool.{Bool, true, false}
use mathlib.Core.Logic.{◌⊎◌, inl, inr}

pub data Result {ℓ κ} (E : Type ℓ) (A : Type κ) : Type (ℓ ⊔ κ) where
  ok : A → Result E A
  err : E → Result E A

infixl 5 ◌>>◌
module _ {ℓ κ} {E : Type ℓ} {A : Type κ} where
  infixl 5 ◌>>=◌
  abbrev pub ◌>>=◌ {μ} : {B : Type μ} → Result E A → (A → Result E B) → Result E B
  ok a >>= next = next a
  err x >>= next = err x

  -- A chain succeeds only if both its parts do.
  pub >>=-eq-ok {μ} :
      {B : Type μ} (r : Result E A) (next : A → Result E B) {last : B}
      → (r >>= next) ≡ ok last
      → (first : A) × (r ≡ ok first) × (next first ≡ ok last)
  >>=-eq-ok (ok first) next done = (first, refl, done)
  >>=-eq-ok (err x) next done = cc

  pub Result-cases : (r : Result E A) → ((a : A) × (r ≡ ok a)) ⊎ ((e : E) × (r ≡ err e))
  Result-cases (ok a) = inl (a, refl)
  Result-cases (err e) = inr (e, refl)

abbrev pub ◌>>◌ {ℓ κ} : {E : Type ℓ} {B : Type κ} → Result E (Unit {0}) → Result E B → Result E B
r >> next = r >>= λ _. next

-- `if bad { return err }`.
abbrev pub fail_if {ℓ} : {E : Type ℓ} → Bool → E → Result E (Unit {0})
fail_if true e = err e
fail_if false e = ok tt
