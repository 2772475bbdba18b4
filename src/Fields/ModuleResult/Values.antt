-- ===== src/Fields/ModuleResult/Values.antt =====
-- Values of results: their type, and what comes back.
use plugin_play.Base.{true, false, ◌≡◌, some, arith, if◌then◌else◌}
use plugin_play.Base.Result.{ok, err, has_ok, runtime_error, invalid_argument, ◌>>=◌}
use plugin_play.Types.{Rtti, rtti_same}
use plugin_play.Any.{Python, Mode}
use plugin_play.Fields.ModuleResult.{ModuleResult, has_value, set_type_as, change, value}

module _ {A : Type 0} (py : Python A) (t u : Rtti) (v : A)
    (t_native : rtti_same t py.wrapper ≡ false) (u_native : rtti_same u py.wrapper ≡ false) where
  -- For types other than PythonWrapper, a result that holds no value and is declared to have a
  -- type takes a value of that type and gives it back; a value of another type is refused.
  value-change :
      (r : ModuleResult A)
      → has_value r ≡ false
      → (q : ModuleResult A) × (set_type_as py r t ≡ (ok tt, q))
        × ((change q u v >>= λ s. value py s (record { clean = t; mode = Mode.value }))
            ≡ (if rtti_same u t then ok v else err (invalid_argument "Value is not of type")))
  unfolding set_type_as change value
  value-change r h = ((set_type_as py r t).1, ground arith, ground arith)

  -- For types other than PythonWrapper, where a value is bound, declaring another type throws
  -- and keeps the type, but the check of the refused type is in place: values of that type alone
  -- are accepted from then on.
  change-set_type_refused :
      (r : ModuleResult A) (old : Rtti)
      → has_value r ≡ true
      → r.type ≡ some old
      → rtti_same old t ≡ false
      → (q : ModuleResult A) × (set_type_as py r t
          ≡ (err (runtime_error "Can't change type after value is set"), q))
        × (q.type ≡ some old)
        × (has_ok (change q u v) ≡ rtti_same u t)
  unfolding set_type_as change
  change-set_type_refused r old h e differ =
      ((set_type_as py r t).1, ground arith, ground arith, ground arith)
