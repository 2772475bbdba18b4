-- ===== src/Fields/ModuleInput.antt =====
-- ModuleInputPIMPL (cxx/src/pluginplay/fields/detail_/module_input_pimpl.hpp and .ipp) and the
-- class ModuleInput over it (cxx/include/pluginplay/fields/module_input.ipp and
-- cxx/src/pluginplay/fields/module_input.cpp).
pub mod Checks
pub mod Calls
pub mod Typed
pub mod Bounds
use plugin_play.Base.{
  String, concat, Bool, true, false, ◌||◌, ◌&&◌, Option, none, some, has, List, [], ◌∷◌,
  if◌then◌else◌,
}
use plugin_play.Base.Order.{Order}
use plugin_play.Base.Map.{Map, keys, emplace}
use plugin_play.Base.Result.{
  Result, ok, err, Error, runtime_error, invalid_argument, bad_optional_access, guard, or_throw,
  ◌>>=◌, ◌>>◌,
}
use plugin_play.Types.{Rtti, rtti_same}
use plugin_play.Any.{
  AnyField, Python, Mode, const_value, const_ref, any_is_convertible, make_any_field, by_const_ref,
  by_value, any_cast, Target, mutable_ref, copy, storing_python_object,
}

-- ModuleInputPIMPL::any_check; a check of a typed bound casts, and may throw.
abbrev pub AnyCheck : Type 0 → Type 0
AnyCheck A = AnyField A → Result Bool

pub record ModuleInput (A : Type 0) : Type 0 where
  pub value : AnyField A
  pub desc : Option String
  pub optional : Bool
  pub transparent : Bool
  pub checks : Map String (AnyCheck A)
  pub type : Option Rtti
  pub is_cref : Bool

module _ {A : Type 0} where
  -- the default constructors
  unfoldable pub empty : ModuleInput A
  empty = record {
    value = none;
    desc = none;
    optional = false;
    transparent = false;
    checks = [];
    type = none;
    is_cref = false;
  }

  abbrev pub has_type : ModuleInput A → Bool
  has_type p = has p.type

  abbrev pub has_value : ModuleInput A → Bool
  has_value p = has p.value

  -- ModuleInput's copy constructor and copy assignment: the pimpl's clone copies its AnyField
  unfoldable pub copy_input : Python A → ModuleInput A → Result (ModuleInput A)
  unfolding copy
  copy_input py p = do v ← copy py p.value; ok (record p { value = v })

  unfoldable pub is_ready : ModuleInput A → Bool
  is_ready p = p.optional || has_value p

  abbrev pub assert_type_set : ModuleInput A → Result (Unit {0})
  assert_type_set p = guard (has_type p) (runtime_error "Must set type first")

  -- the loop of is_valid: it ends at the first check that fails or throws
  unfoldable pub passes : Map String (AnyCheck A) → AnyField A → Result Bool
  passes [] v = ok true
  passes ((k, check) ∷ rest) v = do fits ← check v; if fits then passes rest v else ok false

  unfoldable pub is_valid : ModuleInput A → AnyField A → Result Bool
  is_valid p v = do assert_type_set p; passes p.checks v

  -- m_type_ = type; a value that is set fixes the type.
  unfoldable pub set_type : ModuleInput A → Rtti → Result (ModuleInput A)
  unfolding rtti_same
  set_type p type = elim p.type [
    | none ↦ ok (record p { type = some type })
    | some old ↦
        if has_value p
        then if rtti_same old type
          then ok (record p { type = some type })
          else err (runtime_error "Cannot change type after value is set.")
        else ok (record p { type = some type })
  ]

  unfoldable pub set_description : ModuleInput A → String → ModuleInput A
  set_description p desc = record p { desc = some desc }

  unfoldable pub make_optional : ModuleInput A → ModuleInput A
  make_optional p = record p { optional = true }

  unfoldable pub make_required : ModuleInput A → ModuleInput A
  make_required p = record p { optional = false }

  unfoldable pub make_opaque : ModuleInput A → ModuleInput A
  make_opaque p = record p { transparent = false }

  unfoldable pub make_transparent : ModuleInput A → ModuleInput A
  make_transparent p = record p { transparent = true }

  unfoldable pub get_type : ModuleInput A → Result Rtti
  get_type p = or_throw p.type (runtime_error "Must set type first")

  -- ModuleInputPIMPL::value, ModuleInput::get_
  unfoldable pub get : ModuleInput A → Result (AnyField A)
  get p = elim p.value [
    | none ↦ err (runtime_error "Value has not been set")
    | some f ↦ ok (some f)
  ]

  unfoldable pub description : ModuleInput A → Result String
  description p = or_throw p.desc bad_optional_access

  unfoldable pub check_descriptions : ModuleInput A → List String
  check_descriptions p = keys p.checks

-- `cim` is the comparator of utilities::CaseInsensitiveMap, `print` what AnyField::print writes.
module _ {A : Type 0} (cim : Order String) (print : AnyField A → String) where
  -- the list of failed checks in the message of set_value; all checks are called once more
  unfoldable pub failed_checks : Map String (AnyCheck A) → AnyField A → String → Result String
  failed_checks [] v msg = ok msg
  failed_checks ((k, check) ∷ rest) v msg = do
    fits ← check v
    failed_checks rest v (if fits then msg else concat (concat msg k) " ")

  unfoldable pub set_value : ModuleInput A → AnyField A → Result (ModuleInput A)
  unfolding is_valid failed_checks
  set_value p v = do
    assert_type_set p
    fits ← is_valid p v
    let told = concat (concat "Input value: \"" (print v)) "\" has failed bounds checks: "
    let refused = failed_checks p.checks v told >>= λ msg. err (invalid_argument msg)
    if fits then ok (record p { value = v }) else refused

  -- the bounds check of the value that is set; the exception carries the description alone
  unfoldable pub add_check : ModuleInput A → AnyCheck A → String → Result (ModuleInput A)
  unfolding emplace
  add_check p check desc =
      let added = record p { checks = emplace cim desc check p.checks } in
      elim p.value [
        | none ↦ ok added
        | some f ↦ do fits ← check (some f); if fits then ok added else err (invalid_argument desc)
      ]

  -- ModuleInput::set_type<T>: `is_cref` is IsConstRef<T>, `type` the type without its reference.
  -- `demangle` is utilities::printing::Demangler::demangle.
  module _ (py : Python A) (demangle : Rtti → String) where
    -- bounds_checking::TypeCheck<T>
    unfoldable pub type_check : Bool → Rtti → AnyCheck A
    unfolding any_is_convertible
    type_check is_const t v =
        let mode = if is_const then const_value else Mode.value in
        ok (
          any_is_convertible py v (record { clean = t; mode = mode })
          || any_is_convertible py v (record { clean = t; mode = const_ref }))

    -- `m_is_cref_` is written before `set_type_` may throw, the type before the new check may.
    unfoldable pub set_type_as : ModuleInput A → Bool → Rtti → Result (Unit {0}) × ModuleInput A
    unfolding set_type add_check type_check
    set_type_as p is_cref t =
        let p1 = record p { is_cref = is_cref } in
        elim (set_type p1 t) [
          | err e ↦ (err e, p1)
          | ok q ↦ elim (add_check q (type_check is_cref t) (concat "Type == " (demangle t))) [
            | err e ↦ (err e, q)
            | ok r ↦ (ok tt, r)
          ]
        ]

    -- ModuleInput::wrap_value_: `is_lvalue` tells that T is a reference, `clean` is std::decay_t<T>.
    unfoldable pub wrap_value : ModuleInput A → Bool → Rtti → A → AnyField A
    unfolding make_any_field
    wrap_value p is_lvalue clean v =
        make_any_field clean (if p.is_cref && is_lvalue then by_const_ref else by_value) v

    -- ModuleInput::change of a value of a type other than AnyField and char[N]
    unfoldable pub change : ModuleInput A → Bool → Rtti → A → Result (ModuleInput A)
    unfolding wrap_value set_value
    change p is_lvalue clean v = set_value p (wrap_value p is_lvalue clean v)

-- What value<T>() gives: the value, and the input after a write to what was given.
pub record Access (A : Type 0) : Type 0 where
  pub value : A
  pub write : A → ModuleInput A

module _ {A : Type 0} (py : Python A) where
  -- What the field holds after a write; that of a Python object is converted.
  unfoldable pub replaced : AnyField A → A → AnyField A
  unfolding storing_python_object
  replaced none v = none
  replaced (some f) v =
      some (record f { payload = if storing_python_object py f then py.make v else v })

  -- The input after a write to the value that it holds.
  abbrev pub overwrite : ModuleInput A → A → ModuleInput A
  overwrite p v = record p { value = replaced p.value v }

  -- ModuleInput::value<T>() of an input that can be modified: a modifiable reference is one to the
  -- value that the input holds, and no check sees what is written to it; a write to a copy changes
  -- no input.
  unfoldable pub value_mut : ModuleInput A → Target → Result (Access A)
  unfolding get any_cast replaced
  value_mut p t = elim t.mode [
    | mutable_ref ↦
        if p.is_cref
        then err (
            runtime_error
              "Input is a const ref, so you can't get it back as a modifiable reference.")
        else (do
          f ← get p
          v ← any_cast py f t
          ok (record { value = v; write = λ new. overwrite p new }))
    | _ ↦ do f ← get p; v ← any_cast py f t; ok (record { value = v; write = λ new. p })
  ]
