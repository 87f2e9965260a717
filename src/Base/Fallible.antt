-- ===== src/Base/Fallible.antt =====
-- Go's `(value, error)` returns: a value or an error of the component's own type.
use mathlib.Core.Path.{◌≡◌, refl}
use mathlib.Core.Logic.{◌⊎◌, inl, inr}
use mathlib.Core.Bool.{Bool, true, false}
use mathlib.Core.Option.{Option, none, some}

pub data Result {ℓ} (E : Type 0) (A : Type ℓ) : Type ℓ where
  ok : A → Result E A
  err : E → Result E A

infixl 5 ◌>>=◌ ◌>>◌
abbrev pub ◌>>=◌ {ℓ κ} :
    {E : Type 0} {A : Type ℓ} {B : Type κ} → Result E A → (A → Result E B) → Result E B
ok a >>= f = f a
err e >>= f = err e

abbrev pub ◌>>◌ {ℓ} : {E : Type 0} {B : Type ℓ} → Result E (Unit {0}) → Result E B → Result E B
m >> k = m >>= λ _. k

-- `if !test { return nil, e }`
abbrev pub guard : {E : Type 0} → Bool → E → Result E (Unit {0})
guard true e = ok tt
guard false e = err e

-- `if err != nil { return nil, wrap(err) }`
abbrev pub wrap_err {ℓ} : {E F : Type 0} {A : Type ℓ} → (E → F) → Result E A → Result F A
wrap_err f (ok a) = ok a
wrap_err f (err e) = err (f e)

-- A call outside the model that returns a value or an error whose text is not modelled.
abbrev pub or_err {ℓ} : {E : Type 0} {A : Type ℓ} → Option A → E → Result E A
or_err none e = err e
or_err (some a) e = ok a

pub or_err-eq-ok {ℓ} :
    {E : Type 0} {A : Type ℓ} (o : Option A) (e : E) {a : A} → or_err o e ≡ ok a → o ≡ some a
or_err-eq-ok none e h = cc
or_err-eq-ok (some a) e h = cc

pub wrap_err-eq-ok {ℓ} :
    {E F : Type 0} {A : Type ℓ} (f : E → F) (r : Result E A) {a : A}
    → wrap_err f r ≡ ok a
    → r ≡ ok a
wrap_err-eq-ok f (ok a) h = cc
wrap_err-eq-ok f (err e) h = cc

pub Result-cases {ℓ} :
    {E : Type 0} {A : Type ℓ} (r : Result E A) → ((a : A) × (r ≡ ok a)) ⊎ ((e : E) × (r ≡ err e))
Result-cases (ok a) = inl (a, refl)
Result-cases (err e) = inr (e, refl)

-- To go through a chain of calls that succeeded, one call at a time.
module _ {ℓ κ ν} {E : Type 0} {A : Type ℓ} {B : Type κ} {P : Type ν} where
  pub bind_ok :
      (m : Result E A) (f : A → Result E B) {b : B}
      → (m >>= f) ≡ ok b
      → ((a : A) → m ≡ ok a → f a ≡ ok b → P)
      → P
  bind_ok (ok a) f h k = k a refl h
  bind_ok (err e) f h k = absurd (cc)

  pub or_err_ok :
      (o : Option A) (e : E) (f : A → Result E B) {b : B}
      → (or_err o e >>= f) ≡ ok b
      → ((a : A) → o ≡ some a → f a ≡ ok b → P)
      → P
  or_err_ok none e f h k = absurd (cc)
  or_err_ok (some a) e f h k = k a refl h

module _ {κ ν} {E : Type 0} {B : Type κ} {P : Type ν} where
  pub guard_ok :
      (t : Bool) (e : E) (f : Unit {0} → Result E B) {b : B}
      → (guard t e >>= f) ≡ ok b
      → (t ≡ true → f tt ≡ ok b → P)
      → P
  guard_ok true e f h k = k refl h
  guard_ok false e f h k = absurd (cc)
