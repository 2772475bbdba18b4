-- ===== src/Base/Result.antt =====
-- C++ exceptions as values: the class of the exception with its `what()`. `fault` is undefined
-- behaviour (a null pointer that is followed), `terminated` an exception that leaves a `noexcept`
-- function, `overflow` a recursion that has used up its fuel.
use Prim.Native.String.{String}
use mathlib.Core.Path.{◌≡◌, refl}
use mathlib.Core.Logic.{◌⊎◌, inl, inr}
use mathlib.Core.Bool.{Bool, true, false}
use mathlib.Core.Option.{Option, none, some}

pub data Error : Type 0 where
  runtime_error : String → Error
  out_of_range : String → Error
  invalid_argument : String → Error
  bad_optional_access : Error
  fault : Error
  terminated : Error
  overflow : Error

pub data Result {ℓ} (A : Type ℓ) : Type ℓ where
  ok : A → Result A
  err : Error → Result A

-- `if(!b) throw e;`
abbrev pub guard : Bool → Error → Result (Unit {0})
guard true e = ok tt
guard false e = err e

-- `*p`, `o.value()`: what a null pointer or an empty optional gives is `e`.
abbrev pub or_throw {ℓ} : {A : Type ℓ} → Option A → Error → Result A
or_throw none e = err e
or_throw (some a) e = ok a

-- An exception that meets a `noexcept` function ends the program.
abbrev pub escape : Error → Error
escape fault = fault
escape overflow = overflow
escape _ = terminated

-- The result of a `noexcept` function.
abbrev pub noexcept {ℓ} : {A : Type ℓ} → Result A → Result A
noexcept (ok a) = ok a
noexcept (err e) = err (escape e)

module _ {ℓ κ} {A : Type ℓ} {B : Type κ} where
  infixl 5 ◌>>=◌
  -- What follows a call that throws is not run.
  abbrev pub ◌>>=◌ : Result A → (A → Result B) → Result B
  ◌>>=◌ (ok a) next = next a
  ◌>>=◌ (err e) next = err e

  pub >>=-eq-ok :
      (call : Result A) (next : A → Result B) {b : B}
      → (call >>= next) ≡ ok b
      → (a : A) × (call ≡ ok a) × (next a ≡ ok b)
  >>=-eq-ok (ok a) next h = (a, refl, h)
  >>=-eq-ok (err e) next h = cc

infixl 5 ◌>>◌
abbrev pub ◌>>◌ {ℓ} : {B : Type ℓ} → Result (Unit {0}) → Result B → Result B
◌>>◌ call next = call >>= λ done. next

-- Does the call return?
abbrev pub has_ok {ℓ} : {A : Type ℓ} → Result A → Bool
has_ok (ok a) = true
has_ok (err e) = false

pub Result-cases {ℓ} :
    {A : Type ℓ} (r : Result A) → ((a : A) × (r ≡ ok a)) ⊎ ((e : Error) × (r ≡ err e))
Result-cases (ok a) = inl (a, refl)
Result-cases (err e) = inr (e, refl)
