-- ===== src/Any/Casts.antt =====
-- What any_cast gives back of what make_any_field stored, for types other than PythonWrapper.
use plugin_play.Base.{Bool, true, false, ◌&&◌, ◌≡◌, arith, refl, ==-refl, if◌then◌else◌}
use plugin_play.Base.Result.{ok, err}
use plugin_play.Types.{Rtti, rtti_same}
use plugin_play.Any.{
  AnyField, same_storage, Storage, by_value, Mode, mutable_ref, Target, Python, Values,
  IsEquivalence, make_any_field, any_cast, not_convertible, copy, owns_value, any_eq, are_equal,
}

-- A modifiable reference is given only to a value that the field owns and that is not const.
unfoldable pub readable : Storage → Mode → Bool
readable by_value m = true
readable _ mutable_ref = false
readable _ _ = true

module _ {A : Type 0} (py : Python A) (c : Rtti) (s : Storage) (v : A)
    (not_python : rtti_same c py.wrapper ≡ false) where
  -- For types other than PythonWrapper, a field gives back the stored value at the stored type,
  -- as a modifiable reference only if the field owns a value that is not const, and refuses
  -- every other type.
  any_cast-make_any_field :
      (t : Target)
      → rtti_same t.clean py.wrapper ≡ false
      → any_cast py (make_any_field c s v) t
        ≡ (if rtti_same c t.clean && readable s t.mode then ok v else err (not_convertible py))
  unfolding any_cast make_any_field readable
  any_cast-make_any_field t h = ground arith

  -- For types other than PythonWrapper, a copy owns a value that equals the original's, also
  -- where the original only held a reference; are_equal tells the two apart unless the original
  -- owned a modifiable value.
  pub copy-make_any_field :
      (vals : Values A)
      → IsEquivalence vals
      → (b : AnyField A) × (copy py (make_any_field c s v) ≡ ok b)
        × (owns_value b ≡ true)
        × (any_eq py vals (make_any_field c s v) b ≡ ok true)
        × (are_equal py vals (make_any_field c s v) b ≡ ok (same_storage s by_value))
  unfolding copy make_any_field owns_value any_eq are_equal same_storage rtti_same
  copy-make_any_field vals laws = (
    make_any_field c by_value v,
    ground arith,
    refl,
    ground (arith, laws.eq_refl v, ==-refl c.index),
    ground (arith, laws.eq_refl v, ==-refl c.index),
  )
