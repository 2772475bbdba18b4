-- ===== src/Module/Setters.antt =====
-- The calls by which a user changes a module, and those that read it: cxx/src/pluginplay/module/
-- module.cpp and the templates of cxx/include/pluginplay/module/module_class.hpp.
pub mod Locked
pub mod Suitable
use plugin_play.Base.{
  ℕ, String, concat, Bool, true, false, ◌≡◌, Option, none, some, has, List, [], ◌∷◌, if◌then◌else◌,
  not,
}
use plugin_play.Base.Order.{Order}
use plugin_play.Base.Map.{Map, find, count, assign}
use plugin_play.Base.Set
use plugin_play.Base.Result.{
  Result, ok, err, Error, runtime_error, out_of_range, bad_optional_access, guard, or_throw, ◌>>=◌,
  ◌>>◌,
}
use plugin_play.Types.{Rtti, rtti_same, rtti_equal, rtti_order}
use plugin_play.Any.{AnyField, Python}
use plugin_play.Fields.ModuleInput
use plugin_play.Fields.ModuleInput.{ModuleInput}
use plugin_play.Module.{
  Module, SubmoduleRequest, InputMap, Store, ModuleBase, assert_mod, deref, write,
}
use plugin_play.Module.Copy.{copy_of}
use plugin_play.Module.Lock.{unlock}

-- std::any_of with rtti_equal
unfoldable pub suitable : Rtti → List Rtti → Bool
unfolding rtti_equal
suitable t [] = false
suitable t (u ∷ types) = if rtti_equal t u then true else suitable t types

module _ {A : Type 0} where
  -- Module::assert_not_locked_
  abbrev pub assert_not_locked : Module A → Result (Unit {0})
  assert_not_locked m = guard (not m.locked) (runtime_error "Locked modules can not be modified")

  -- the message of change_input and change_submod
  unfoldable pub no_such : Module A → String → String → Error
  no_such m what key =
      let msg = concat (concat (concat " does not have " what) (concat " \"" key)) "\"" in
      elim m.name [
        | none ↦ out_of_range (concat "Unnamed module" msg)
        | some n ↦ out_of_range (concat (concat "Module \"" n) (concat "\"" msg))
      ]

  -- Module::unlocked_copy
  unfoldable pub unlocked_copy : Python A → Module A → Result (Module A)
  unfolding copy_of unlock
  unlocked_copy py m = do rv ← copy_of py m; ok (unlock rv)

  -- Module::operator=(const Module&): the copy keeps its own name if the right side has none.
  unfoldable pub copy_assign : Python A → Module A → Module A → Result (Module A)
  unfolding copy_of
  copy_assign py m rhs = do
    rv ← copy_of py rhs
    ok (if has rhs.name then rv else record rv { name = m.name })

  unfoldable pub set_name : Module A → String → Module A
  set_name m name = record m { name = some name }

  -- ModulePIMPL::turn_off_memoization
  unfoldable pub turn_off_memoization : Module A → Result (Module A)
  turn_off_memoization m = do base ← assert_mod m; ok (record m { memoizable = false })

  -- ModulePIMPL::turn_on_memoization
  unfoldable pub turn_on_memoization : Module A → Result (Module A)
  turn_on_memoization m = do base ← assert_mod m; ok (record m { memoizable = true })

  -- Module::add_property_type
  unfoldable pub add_property_type : Module A → Rtti → Result (Module A)
  add_property_type m t = do
    assert_not_locked m
    base ← assert_mod m
    ok (record m { property_types = Set.insert rtti_order t m.property_types })

  -- Module::check_property_type_
  unfoldable pub check_property_type : (Rtti → String) → Module A → Rtti → Result (Unit {0})
  unfolding suitable
  check_property_type demangle m t = do
    base ← assert_mod m
    guard (suitable t m.property_types)
        (runtime_error (concat "Module does not satisfy property type " (demangle t)))

  -- Module::check_python_property_type_
  unfoldable pub check_python_property_type : Order String → Module A → String → Result (Unit {0})
  check_python_property_type strings m name = do
    base ← assert_mod m
    let msg = concat (concat "Module does not satisfy Python-only property type \"" name) "\""
    guard (Set.member strings name m.python_property_types) (runtime_error msg)

  module _ (cim : Order String) (print : AnyField A → String) where
    -- Module::change_input, of a value that is wrapped already
    unfoldable pub change_input : Module A → String → AnyField A → Result (Module A)
    unfolding no_such
    change_input m key v = do
      assert_not_locked m
      base ← assert_mod m
      elim (find cim key m.inputs) [
        | none ↦ err (no_such m "input" key)
        | some i ↦ do
          j ← ModuleInput.set_value cim print i v
          ok (record m { inputs = assign cim key j m.inputs })
      ]

  -- SubmoduleRequestPIMPL::set_type
  unfoldable pub set_type :
      {C : Type 0}
      → Store A C
      → SubmoduleRequest A
      → Rtti
      → InputMap A
      → Result (SubmoduleRequest A)
  set_type st r t inputs =
      let changed = record r { type = some t; inputs = inputs } in
      elim r.module_ptr [
        | none ↦ ok changed
        | some b ↦ do
          m ← deref st b
          base ← assert_mod m
          guard (Set.member rtti_order t m.property_types)
              (runtime_error "Can't change type after setting module")
          ok changed
      ]

  -- SubmoduleRequestPIMPL::set_module; `type()` of a request that has no type throws, in the loop
  -- or in the message.
  unfoldable pub set_module :
      {C : Type 0}
      → (Rtti → String)
      → Store A C
      → SubmoduleRequest A
      → Option ℕ
      → Result (SubmoduleRequest A)
  unfolding suitable
  set_module demangle st r ptr = do
    b ← or_throw ptr (runtime_error "Pointer does not contain a module")
    m ← deref st b
    base ← assert_mod m
    t ← or_throw r.type bad_optional_access
    guard (suitable t m.property_types)
        (runtime_error (concat "Module does not satisfy property type: " (demangle t)))
    ok (record r { module_ptr = some b })

  -- Module::change_submod
  unfoldable pub change_submod :
      {C : Type 0}
      → Order String
      → (Rtti → String)
      → Store A C
      → Module A
      → String
      → Option ℕ
      → Result (Module A)
  unfolding no_such set_module
  change_submod cim demangle st m key ptr = do
    assert_not_locked m
    base ← assert_mod m
    elim (find cim key m.submods) [
      | none ↦ err (no_such m "submodule" key)
      | some r ↦ do
        q ← set_module demangle st r ptr
        ok (record m { submods = assign cim key q m.submods })
    ]
