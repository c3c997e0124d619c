-- ===== src/Prelude/Errors.antt =====
-- What a method that may throw gives: its value, or the error that it throws.
use mathlib.Core.Path.{◌≡◌, refl}
use mathlib.Core.Bool.{Bool, true, false}
use mathlib.Core.Option.{Option, none, some}

pub data Result {ℓ} (E A : Type ℓ) : Type ℓ where
  err : E → Result E A
  ok : A → Result E A

-- `findOrFail`, `firstOrFail`, or a guard on a missing row
abbrev pub or_fail {ℓ} : {E A : Type ℓ} → Option A → E → Result E A
or_fail none e = err e
or_fail (some a) e = ok a

infixl 5 ◌>>=◌
-- `await`: the rest runs on the value, an error passes through.
abbrev pub ◌>>=◌ {ℓ} : {E A B : Type ℓ} → Result E A → (A → Result E B) → Result E B
err thrown >>= rest = err thrown
ok value >>= rest = rest value

-- `if (!test) throw e`
abbrev pub require {ℓ} : {E : Type ℓ} → Bool → E → Result E (Unit {ℓ})
require true e = ok tt
require false e = err e

infixl 5 ◌>>◌
abbrev pub ◌>>◌ {ℓ} : {E B : Type ℓ} → Result E (Unit {ℓ}) → Result E B → Result E B
check >> rest = check >>= λ _. rest

pub ok-injective {ℓ} : {E A : Type ℓ} {a b : A} → ◌≡◌ {A = Result E A} (ok a) (ok b) → a ≡ b
ok-injective h = cc

-- Inversions of a successful run.
module _ {ℓ} {E A B : Type ℓ} where
  -- The value that the first part of a run that ends well gave, and the rest of the run
  pub >>=-eq-ok :
      (part : Result E A) (rest : A → Result E B) {last : B}
      → (part >>= rest) ≡ ok last
      → (value : A) × (part ≡ ok value) × (rest value ≡ ok last)
  >>=-eq-ok (err thrown) rest run = cc
  >>=-eq-ok (ok value) rest run = (value, refl, run)

  pub or_fail-eq-ok :
      (o : Option A) (e : E) (f : A → Result E B) {b : B}
      → (or_fail o e >>= f) ≡ ok b
      → (a : A) × (o ≡ some a) × (f a ≡ ok b)
  or_fail-eq-ok none e f h = cc
  or_fail-eq-ok (some a) e f h = (a, refl, h)

module _ {ℓ} {E B : Type ℓ} where
  pub require-eq-ok :
      (t : Bool) (e : E) (m : Result E B) {b : B}
      → (require t e >> m) ≡ ok b
      → (t ≡ true) × (m ≡ ok b)
  require-eq-ok true e m h = (refl, h)
  require-eq-ok false e m h = cc

module _ {ℓ} {E : Type ℓ} where
  pub require_ok : (t : Bool) (e : E) → require t e ≡ ok tt → t ≡ true
  require_ok true e h = refl
  require_ok false e h = cc
