-- ===== src/Base/Exec.antt =====
-- Methods that change a state and may throw: what was written before the exception stays written.
use plugin_play.Base.Result.{Error, Result, ok, err}
use mathlib.Core.Path.{◌≡◌, refl}

abbrev pub Exec : Type 0 → Type 0 → Type 0
Exec S A = S → Result A × S

module _ {S A : Type 0} where
  abbrev pub pure : A → Exec S A
  pure a s = (ok a, s)

  abbrev pub throw : Error → Exec S A
  throw e s = (err e, s)

  -- a call that does not change the state
  abbrev pub reads : (S → Result A) → Exec S A
  reads f s = (f s, s)

module _ {S A B : Type 0} where
  abbrev pub continue : Result A → (A → Exec S B) → S → Result B × S
  continue (ok a) f s = f a s
  continue (err e) f s = (err e, s)

  infixl 5 ◌>>=◌ ◌>>◌
  abbrev pub ◌>>=◌ : Exec S A → (A → Exec S B) → Exec S B
  ◌>>=◌ m f s = continue (m s).0 f (m s).1

  abbrev pub ◌>>◌ : Exec S A → Exec S B → Exec S B
  ◌>>◌ m k s = continue (m s).0 (λ _. k) (m s).1

abbrev pub modify : {S : Type 0} → (S → S) → Exec S (Unit {0})
modify f s = (ok tt, f s)

module _ {S A B : Type 0} where
  continue-eq_ok :
      (r : Result A) (f : A → Exec S B) (s : S) {b : B}
      → (continue r f s).0 ≡ ok b
      → (a : A) × (r ≡ ok a) × (continue r f s ≡ f a s)
  continue-eq_ok (ok a) f s h = (a, refl, refl)
  continue-eq_ok (err e) f s h = cc

  -- A sequence that returns has a first part that returns.
  pub >>=-eq_ok :
      (m : Exec S A) (f : A → Exec S B) (s : S) {b : B}
      → ((m >>= f) s).0 ≡ ok b
      → (a : A) × ((m s).0 ≡ ok a) × ((m >>= f) s ≡ f a (m s).1)
  >>=-eq_ok m f s h = continue-eq_ok (m s).0 f (m s).1 h
