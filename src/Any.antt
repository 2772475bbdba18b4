-- ===== src/Any.antt =====
-- cxx/include/pluginplay/any: AnyField, its type-erased base AnyFieldBase and the wrapper
-- AnyFieldWrapper<T>, with cxx/src/pluginplay/any/any_field.cpp. The payloads of all C++ types
-- are one type `A`; their operator== and the Python conversions of pybind11 are parameters.
pub mod Casts
pub mod Equality
use plugin_play.Base.{String, Bool, true, false, ◌&&◌, ◌≡◌, Option, none, some, has, if◌then◌else◌}
use plugin_play.Base.Result.{Result, ok, err, Error, runtime_error, noexcept, ◌>>=◌}
use plugin_play.Types.{Rtti, rtti_same}

-- The template argument T of AnyFieldWrapper<T>: `clean_type` and how it is qualified.
pub data Storage : Type 0 where
  by_value by_const_value by_const_ref : Storage

-- One AnyFieldWrapper<T>: std::decay_t<T>, its qualification, and what m_value_ holds.
pub record Field (A : Type 0) : Type 0 where
  pub clean : Rtti
  pub storage : Storage
  pub payload : A

-- AnyField: its pimpl pointer
abbrev pub AnyField : Type 0 → Type 0
AnyField A = Option (Field A)

-- The type T that a cast asks for.
pub data Mode : Type 0 where
  value const_value const_ref mutable_ref : Mode

pub record Target : Type 0 where
  pub clean : Rtti
  pub mode : Mode

-- operator== of the wrapped types, about which nothing is assumed here
pub record Values (A : Type 0) : Type 0 where
  pub eq : A → A → Bool

-- The types in use have an operator== that is an equivalence: they hold no NaN, for one.
pub record IsEquivalence {A : Type 0} (vals : Values A) : Type 0 where
  pub eq_refl : (a : A) → vals.eq a a ≡ true
  pub eq_sym : (a b : A) → vals.eq a b ≡ true → vals.eq b a ≡ true
  pub eq_trans : (a b c : A) → vals.eq a b ≡ true → vals.eq b c ≡ true → vals.eq a c ≡ true

-- python::PythonWrapper: which type it is, and what pybind11 converts
pub record Python (A : Type 0) : Type 0 where
  pub wrapper : Rtti
  pub convertible : A → Target → Bool
  pub unwrap : A → Target → A
  pub make : A → A

-- std::is_same_v of two qualifications
unfoldable pub same_storage : Storage → Storage → Bool
same_storage by_value by_value = true
same_storage by_const_value by_const_value = true
same_storage by_const_ref by_const_ref = true
same_storage _ _ = false

module _ {A : Type 0} (py : Python A) where
  -- storing_python_object_
  unfoldable pub storing_python_object : Field A → Bool
  unfolding rtti_same
  storing_python_object f = rtti_same f.clean py.wrapper

  -- AnyFieldBase::is_convertible<T>() const
  unfoldable pub is_convertible : Field A → Target → Bool
  unfolding storing_python_object rtti_same
  is_convertible f t =
      if storing_python_object f
      then py.convertible f.payload t
      else if rtti_same t.clean py.wrapper
      then elim t.mode [ value ↦ true | _ ↦ false ]
      else elim t.mode [ mutable_ref ↦ false | _ ↦ rtti_same f.clean t.clean ]

  -- AnyFieldBase::is_convertible<T>(), of a field that can be modified
  unfoldable pub is_convertible_mut : Field A → Target → Bool
  unfolding is_convertible
  is_convertible_mut f t =
      let read_only = is_convertible f t in
      let stored =
        if rtti_same t.clean py.wrapper
        then elim t.mode [ value ↦ true | _ ↦ false ]
        else rtti_same f.clean t.clean in
      if storing_python_object f
      then read_only
      else elim f.storage [ by_value ↦ stored | _ ↦ read_only ]

  -- error_if_not_convertible_
  abbrev pub not_convertible : Error
  not_convertible = runtime_error "Casting to type failed"

  extract : Field A → Target → A
  extract f t =
      if storing_python_object f
      then py.unwrap f.payload t
      else if rtti_same t.clean py.wrapper
      then elim t.mode [ value ↦ py.make f.payload | _ ↦ f.payload ]
      else f.payload

  -- AnyFieldBase::cast<T>() const
  unfoldable pub cast : Field A → Target → Result A
  unfolding is_convertible extract
  cast f t = if is_convertible f t then ok (extract f t) else err not_convertible

  -- AnyFieldBase::cast<T>()
  unfoldable pub cast_mut : Field A → Target → Result A
  unfolding is_convertible_mut extract
  cast_mut f t = if is_convertible_mut f t then ok (extract f t) else err not_convertible

  -- How the wrapper reads its own value: python_value if it holds a Python object, and
  -- const_ref_type otherwise.
  unfoldable pub own_type : Field A → Target
  unfolding storing_python_object
  own_type f =
      let mode = if storing_python_object f then Mode.value else const_ref in
      record { clean = f.clean; mode = mode }

  -- clone_: the copy holds its value, whatever the original held
  unfoldable pub clone : Field A → Result (Field A)
  unfolding own_type cast
  clone f = do v ← cast f (own_type f); ok (record f { storage = by_value; payload = v })

module _ {A : Type 0} (py : Python A) (vals : Values A) where
  -- are_equal_: the same AnyFieldWrapper<T>, with equal values
  unfoldable pub are_equal_one : Field A → Field A → Result Bool
  unfolding rtti_same same_storage own_type cast
  are_equal_one lhs rhs =
      if rtti_same lhs.clean rhs.clean && same_storage lhs.storage rhs.storage
      then noexcept (do
        l ← cast py lhs (own_type py lhs)
        r ← cast py rhs (own_type py rhs)
        ok (vals.eq l r))
      else ok false

  -- AnyFieldBase::are_equal
  unfoldable pub fields_are_equal : Field A → Field A → Result Bool
  unfolding are_equal_one
  fields_are_equal lhs rhs = do
    one ← are_equal_one lhs rhs
    if one then are_equal_one rhs lhs else ok false

  -- value_equal_: the right side need only be readable as the left side's type
  unfoldable pub value_equal : Field A → Field A → Result Bool
  unfolding cast is_convertible
  value_equal lhs rhs =
      let read : Target = record { clean = lhs.clean; mode = const_ref } in
      if is_convertible py rhs read
      then noexcept (do l ← cast py lhs read; r ← cast py rhs read; ok (vals.eq l r))
      else ok false

  -- AnyField::operator==
  unfoldable pub any_eq : AnyField A → AnyField A → Result Bool
  unfolding value_equal
  any_eq none none = ok true
  any_eq (some l) (some r) = value_equal l r
  any_eq _ _ = ok false

  -- AnyField::are_equal
  unfoldable pub are_equal : AnyField A → AnyField A → Result Bool
  unfolding fields_are_equal
  are_equal none none = ok true
  are_equal (some l) (some r) = fields_are_equal l r
  are_equal _ _ = ok false

module _ {A : Type 0} where
  -- AnyField::has_value
  abbrev pub has_value : AnyField A → Bool
  has_value = has

  -- AnyField::owns_value
  unfoldable pub owns_value : AnyField A → Bool
  owns_value none = false
  owns_value (some f) = elim f.storage [ by_const_ref ↦ false | _ ↦ true ]

  -- AnyField::swap
  unfoldable pub swap : AnyField A → AnyField A → AnyField A × AnyField A
  swap a b = (b, a)

  -- AnyField::reset
  unfoldable pub reset : AnyField A → AnyField A
  reset a = none

  -- make_any_field<T>(v): the wrapper's constructor
  unfoldable pub make_any_field : Rtti → Storage → A → AnyField A
  make_any_field clean storage v = some (record { clean = clean; storage = storage; payload = v })

module _ {A : Type 0} (py : Python A) where
  -- AnyField's copy constructor
  unfoldable pub copy : AnyField A → Result (AnyField A)
  unfolding clone
  copy none = ok none
  copy (some f) = do g ← clone py f; ok (some g)

  -- AnyField's copy assignment; `itself` is the test `this == &rhs`
  unfoldable pub copy_assign : AnyField A → AnyField A → Bool → Result (AnyField A)
  unfolding copy swap
  copy_assign me rhs itself = if itself then ok me else (do tmp ← copy rhs; ok (swap tmp me).1)

  -- AnyField::is_convertible<T>
  unfoldable pub any_is_convertible : AnyField A → Target → Bool
  unfolding is_convertible_mut
  any_is_convertible none t = false
  any_is_convertible (some f) t = is_convertible_mut py f t

  -- any_cast<T>: the pimpl of a read-only AnyField is not read-only
  unfoldable pub any_cast : AnyField A → Target → Result A
  unfolding cast_mut
  any_cast none t = err (runtime_error "Object to unwrap does not have a value.")
  any_cast (some f) t = cast_mut py f t
