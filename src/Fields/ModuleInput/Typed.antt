-- ===== src/Fields/ModuleInput/Typed.antt =====
-- Inputs whose type is declared by set_type<T>.
use plugin_play.Base.{String, concat, Bool, false, ◌≡◌, arith}
use plugin_play.Base.Order.{Order, same}
use plugin_play.Base.Map.{emplace}
use plugin_play.Base.Result.{ok, has_ok}
use plugin_play.Types.{Rtti, rtti_same}
use plugin_play.Any.{AnyField, Python}
use plugin_play.Fields.ModuleInput.{ModuleInput, empty, set_type_as, change, passes}

module _ {A : Type 0} (cim : Order String) (print : AnyField A → String) (py : Python A)
    (demangle : Rtti → String) where
  unfoldable pub declare : ModuleInput A → Bool → Rtti → ModuleInput A
  unfolding set_type_as
  declare p c t = (set_type_as cim print py demangle p c t).1

  -- For types other than PythonWrapper, a new input that is declared to have a type takes a
  -- value of that type, and no value of another.
  pub change-declare :
      (is_cref is_lvalue : Bool) (t u : Rtti) (v : A)
      → rtti_same t py.wrapper ≡ false
      → rtti_same u py.wrapper ≡ false
      → has_ok (change cim print py demangle (declare empty is_cref t) is_lvalue u v)
        ≡ rtti_same u t
  unfolding declare change empty passes
  change-declare is_cref is_lvalue t u v ht hu = ground arith

  -- The type of an input that holds no value may be declared anew, but the check of the first
  -- type stays: for two types of different descriptions, none of them PythonWrapper, no value of
  -- any type but PythonWrapper can be set any more.
  change-declare_twice :
      (c d is_lvalue : Bool) (t u w : Rtti) (v : A)
      → rtti_same t py.wrapper ≡ false
      → rtti_same u py.wrapper ≡ false
      → rtti_same w py.wrapper ≡ false
      → rtti_same t u ≡ false
      → same cim (concat "Type == " (demangle t)) (concat "Type == " (demangle u)) ≡ false
      → (set_type_as cim print py demangle (declare empty c t) d u).0 ≡ ok tt
        × has_ok (change cim print py demangle (declare (declare empty c t) d u) is_lvalue w v)
          ≡ false
  unfolding declare change empty passes emplace
  change-declare_twice c d is_lvalue t u w v ht hu hw differ names = (ground arith, ground arith)
