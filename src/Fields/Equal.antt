-- ===== src/Fields/Equal.antt =====
-- operator== of ModuleInputPIMPL (cxx/src/pluginplay/fields/detail_/module_input_pimpl.ipp) and of
-- ModuleResultPIMPL (cxx/src/pluginplay/fields/detail_/module_result_pimpl.hpp).
use plugin_play.Base.{
  Bool, true, false, ◌&&◌, ◌≡◌, refl, ap, ◌∙◌, Option, none, some, has, arith, ==-refl, str_eq,
  if◌then◌else◌,
}
use plugin_play.Base.Equal.{bool_eq, bool_eq_refl, option_eq, option_eq_refl, str_eq_refl}
use plugin_play.Base.Result.{Result, ok, noexcept, ◌>>=◌}
use plugin_play.Types.{Rtti, rtti_same}
use plugin_play.Any.{AnyField, Python, Values, IsEquivalence, any_eq}
use plugin_play.Any.Equality.{IsNative, owned, any_eq-owned, any_eq-any_alike, any_alike_refl}
use plugin_play.Fields.ModuleInput.{ModuleInput}
use plugin_play.Fields.ModuleResult.{ModuleResult}

pub rtti_same_refl : (t : Rtti) → rtti_same t t ≡ true
unfolding rtti_same
rtti_same_refl t = ==-refl t.index

has-owned : {A : Type 0} (v : AnyField A) → has (owned v) ≡ has v
has-owned none = refl
has-owned (some f) = refl

module _ {A : Type 0} (py : Python A) (vals : Values A) where
  -- The checks and is_cref do not count.
  unfoldable pub input_eq : ModuleInput A → ModuleInput A → Result Bool
  unfolding any_eq option_eq rtti_same
  input_eq lhs rhs =
      let flags =
        bool_eq (has lhs.type) (has rhs.type)
        && bool_eq (has lhs.value) (has rhs.value)
        && bool_eq lhs.optional rhs.optional
        && bool_eq lhs.transparent rhs.transparent
        && bool_eq (has lhs.desc) (has rhs.desc) in
      noexcept (
        if flags && option_eq rtti_same lhs.type rhs.type
        then (do
          values ← if has lhs.value then any_eq py vals lhs.value rhs.value else ok true
          ok (values && option_eq str_eq lhs.desc rhs.desc))
        else ok false)

  values_eq : Option (AnyField A) → Option (AnyField A) → Result Bool
  unfolding any_eq
  values_eq (some l) (some r) = any_eq py vals l r
  values_eq _ _ = ok true

  -- The check of the type does not count.
  unfoldable pub result_eq : ModuleResult A → ModuleResult A → Result Bool
  unfolding values_eq option_eq rtti_same
  result_eq lhs rhs =
      let flags =
        bool_eq (has lhs.type) (has rhs.type)
        && bool_eq (has lhs.value) (has rhs.value)
        && bool_eq (has lhs.desc) (has rhs.desc) in
      if flags && option_eq rtti_same lhs.type rhs.type
      then (do
        values ← values_eq lhs.value rhs.value
        ok (values && option_eq str_eq lhs.desc rhs.desc))
      else ok false

  -- What a result holds is no Python object.
  abbrev pub HoldsNative : Option (AnyField A) → Type 0
  HoldsNative none = Unit
  HoldsNative (some v) = IsNative py v

  module _ (laws : IsEquivalence vals) where
    -- An input is equal to itself, and to a copy of it, which owns its value.
    pub input_eq-owned :
        (i : ModuleInput A)
        → IsNative py i.value
        → input_eq i (record i { value = owned i.value }) ≡ ok true
    unfolding input_eq
    input_eq-owned i h = ground (
      arith,
      bool_eq_refl (has i.type),
      has-owned i.value,
      bool_eq_refl (has i.value),
      bool_eq_refl i.optional,
      bool_eq_refl i.transparent,
      bool_eq_refl (has i.desc),
      option_eq_refl rtti_same rtti_same_refl i.type,
      option_eq_refl str_eq str_eq_refl i.desc,
      any_eq-owned py vals laws i.value h,
    )

    any_eq_refl : (v : AnyField A) → IsNative py v → any_eq py vals v v ≡ ok true
    any_eq_refl v h = any_eq-any_alike py vals v v h h ∙ ap ok (any_alike_refl py vals laws v)

    pub input_eq_refl : (i : ModuleInput A) → IsNative py i.value → input_eq i i ≡ ok true
    unfolding input_eq
    input_eq_refl i h = ground (
      arith,
      bool_eq_refl (has i.type),
      bool_eq_refl (has i.value),
      bool_eq_refl i.optional,
      bool_eq_refl i.transparent,
      bool_eq_refl (has i.desc),
      option_eq_refl rtti_same rtti_same_refl i.type,
      option_eq_refl str_eq str_eq_refl i.desc,
      any_eq_refl i.value h,
    )

    values_eq_refl : (v : Option (AnyField A)) → HoldsNative v → values_eq v v ≡ ok true
    unfolding values_eq
    values_eq_refl none h = refl
    values_eq_refl (some v) h = any_eq_refl v h

    pub result_eq_refl : (r : ModuleResult A) → HoldsNative r.value → result_eq r r ≡ ok true
    unfolding result_eq
    result_eq_refl r h = ground (
      arith,
      bool_eq_refl (has r.type),
      bool_eq_refl (has r.value),
      bool_eq_refl (has r.desc),
      option_eq_refl rtti_same rtti_same_refl r.type,
      option_eq_refl str_eq str_eq_refl r.desc,
      values_eq_refl r.value h,
    )
