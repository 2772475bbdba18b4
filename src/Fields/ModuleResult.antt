-- ===== src/Fields/ModuleResult.antt =====
-- ModuleResultPIMPL (cxx/src/pluginplay/fields/detail_/module_result_pimpl.hpp) and the class
-- ModuleResult over it (cxx/include/pluginplay/fields/module_result.ipp and
-- cxx/src/pluginplay/fields/module_result.cpp).
pub mod Values
use plugin_play.Base.{String, Bool, true, false, ◌||◌, Option, none, some, has, if◌then◌else◌}
use plugin_play.Base.Result.{
  Result, ok, err, Error, runtime_error, invalid_argument, bad_optional_access, fault, guard,
  or_throw, ◌>>=◌, ◌>>◌,
}
use plugin_play.Types.{Rtti, rtti_same}
use plugin_play.Any.{
  AnyField, Python, Mode, const_ref, Target, any_is_convertible, make_any_field, by_value, any_cast,
}

-- The value is a std::shared_ptr<const any>: its pointee may be an AnyField that is empty.
pub record ModuleResult (A : Type 0) : Type 0 where
  pub value : Option (AnyField A)
  pub desc : Option String
  pub type : Option Rtti
  pub type_check : Option (AnyField A → Bool)

module _ {A : Type 0} where
  unfoldable pub empty : ModuleResult A
  empty = record { value = none; desc = none; type = none; type_check = none }

  abbrev pub has_type : ModuleResult A → Bool
  has_type r = has r.type

  abbrev pub has_value : ModuleResult A → Bool
  has_value r = has r.value

  unfoldable pub get_type : ModuleResult A → Result Rtti
  get_type r = or_throw r.type bad_optional_access

  unfoldable pub set_type : ModuleResult A → Rtti → Result (ModuleResult A)
  unfolding get_type rtti_same
  set_type r t =
      if has_value r
      then (do
        old ← get_type r
        if rtti_same old t
            then ok (record r { type = some t })
            else err (runtime_error "Can't change type after value is set"))
      else ok (record r { type = some t })

  unfoldable pub set_type_check : ModuleResult A → (AnyField A → Bool) → ModuleResult A
  set_type_check r check = record r { type_check = some check }

  -- A null pointer, or a check that was never set, is followed.
  unfoldable pub set_value : ModuleResult A → Option (AnyField A) → Result (ModuleResult A)
  unfolding get_type
  set_value r v = do
    t ← get_type r
    check ← or_throw r.type_check fault
    any ← or_throw v fault
    if check any
        then ok (record r { value = some any })
        else err (invalid_argument "Value is not of type")

  unfoldable pub set_description : ModuleResult A → String → ModuleResult A
  set_description r desc = record r { desc = some desc }

  -- ModuleResultPIMPL::value
  unfoldable pub get : ModuleResult A → Result (AnyField A)
  get r = or_throw r.value (runtime_error "Result does not have a bound value")

  unfoldable pub description : ModuleResult A → Result String
  description r = or_throw r.desc bad_optional_access

  -- ModuleResult::change_, of a shared_any
  unfoldable pub change_shared : ModuleResult A → Option (AnyField A) → Result (ModuleResult A)
  unfolding set_value
  change_shared r v = do guard (has_type r) (runtime_error "Type has not been set"); set_value r v

  -- ModuleResult::change_, of an any
  unfoldable pub change_any : ModuleResult A → AnyField A → Result (ModuleResult A)
  unfolding change_shared
  change_any r v = change_shared r (some v)

  -- ModuleResult::wrap_value_
  unfoldable pub wrap_value : Rtti → A → AnyField A
  unfolding make_any_field
  wrap_value clean v = make_any_field clean by_value v

  -- ModuleResult::change of a value that is wrapped
  unfoldable pub change : ModuleResult A → Rtti → A → Result (ModuleResult A)
  unfolding wrap_value change_any
  change r clean v = change_any r (wrap_value clean v)

  module _ (py : Python A) where
    -- bounds_checking::TypeCheck<T>, of an unqualified T
    unfoldable pub type_check : Rtti → AnyField A → Bool
    unfolding any_is_convertible
    type_check t v =
        any_is_convertible py v (record { clean = t; mode = Mode.value })
        || any_is_convertible py v (record { clean = t; mode = const_ref })

    -- ModuleResult::set_type<T>: the check is replaced before the type may be refused.
    unfoldable pub set_type_as : ModuleResult A → Rtti → Result (Unit {0}) × ModuleResult A
    unfolding set_type_check set_type type_check
    set_type_as r t =
        let r1 = set_type_check r (type_check t) in
        elim (set_type r1 t) [ err e ↦ (err e, r1) | ok q ↦ (ok tt, q) ]

    -- ModuleResult::value<T>
    unfoldable pub value : ModuleResult A → Target → Result A
    unfolding get any_cast
    value r t = do v ← get r; any_cast py v t
