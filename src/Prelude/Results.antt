-- ===== src/Prelude/Results.antt =====
-- A result or an error: the pair of return values `(value, err)` of Go, where one of them counts.
use mathlib.Core.Path.{◌≡◌, refl}
use mathlib.Core.Logic.{◌↔◌, ◌⊎◌, inl, inr}
use mathlib.Core.Bool.{Bool, true, false}
use docengine.Prelude.Tests.{if◌then◌else◌}
use native.Mathlib.Omega.{arith}

-- The errors of a component are a data type of `Type 0`.
pub data Result {ℓ} (E : Type 0) (A : Type ℓ) : Type ℓ where
  ok : A → Result E A
  err : E → Result E A

infixl 5 ◌>>=◌ ◌>>◌
abbrev pub ◌>>=◌ {ℓ κ} :
    {E : Type 0} {A : Type ℓ} {B : Type κ} → Result E A → (A → Result E B) → Result E B
ok a >>= f = f a
err e >>= f = err e

abbrev pub ◌>>◌ {ℓ} : {E : Type 0} {B : Type ℓ} → Result E (Unit {0}) → Result E B → Result E B
m >> k = m >>= λ _. k

-- `if failed { return e }`.
abbrev pub fail_if : {E : Type 0} → Bool → E → Result E (Unit {0})
fail_if true e = err e
fail_if false e = ok tt

module _ {E : Type 0} where
  -- Inversion of a successful sequence.
  pub >>=-eq-ok {ℓ κ} :
      {A : Type ℓ} {B : Type κ} (m : Result E A) (k : A → Result E B) {b : B}
      → (m >>= k) ≡ ok b
      → (a : A) × (m ≡ ok a) × (k a ≡ ok b)
  >>=-eq-ok (ok a) k h = (a, refl, h)
  >>=-eq-ok (err e) k h = cc

  pub >>-eq-ok {ℓ} :
      {A : Type ℓ} (m : Result E (Unit {0})) (k : Result E A) {a : A}
      → (m >> k) ≡ ok a
      → (m ≡ ok tt) × (k ≡ ok a)
  >>-eq-ok (ok u) k h = (refl, h)
  >>-eq-ok (err e) k h = (cc, cc)

  pub fail_if-eq-ok : (b : Bool) (e : E) → fail_if b e ≡ ok tt → b ≡ false
  fail_if-eq-ok false e h = refl
  fail_if-eq-ok true e h = cc

  pub ok-injective {ℓ} : {A : Type ℓ} {a b : A} → ◌≡◌ {A = Result E A} (ok a) (ok b) → a ≡ b
  ok-injective h = cc

  -- Four checks in a row pass if each does.
  pub four_checks :
      (a b c : Bool) (m : Result E (Unit {0})) (e f g : E)
      → ((fail_if a e >> (m >> (fail_if b f >> fail_if c g))) ≡ ok tt)
        ↔ ((a ≡ false) × (m ≡ ok tt) × (b ≡ false) × (c ≡ false))
  four_checks a b c m e f g = ground arith

-- To split on a check and keep the equation.
pub check-cases : {E : Type 0} (m : Result E (Unit {0})) → (m ≡ ok tt) ⊎ ((e : E) × (m ≡ err e))
check-cases (ok u) = inl refl
check-cases (err e) = inr (e, refl)

-- A guard that a result has passed.
pub passed {ℓ} :
    {E : Type 0} {A : Type ℓ} (c : Bool) (x : E) (o : Result E A) {a : A}
    → (if c then err x else o) ≡ ok a
    → (c ≡ false) × (o ≡ ok a)
passed false x o h = (refl, h)
passed true x o h = cc
