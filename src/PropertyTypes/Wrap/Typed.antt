-- ===== src/PropertyTypes/Wrap/Typed.antt =====
-- The round trip of arguments, for the inputs and for the results of a property type.
use plugin_play.Base.{
  String, Bool, true, false, ◌≡◌, some, List, arith, Option-cases, inl, inr, ==-refl,
}
use plugin_play.Base.Order.{Order}
use plugin_play.Base.Map
use plugin_play.Base.Map.{Map}
use plugin_play.Base.Result.{ok}
use plugin_play.Types.{Rtti, rtti_same}
use plugin_play.Any.{AnyField, Python, any_cast}
use plugin_play.Fields.ModuleInput.{ModuleInput, passes, wrap_value}
use plugin_play.Fields.ModuleInput
use plugin_play.Fields.ModuleResult as Res
use plugin_play.Fields.ModuleResult.{ModuleResult}
use plugin_play.PropertyTypes.FieldTuple.{FieldTuple, FieldType, input_element, result_element}
use plugin_play.PropertyTypes.Wrap.{
  PropertyType, inputs, results, wrap_inputs, wrap_results, unwrap_inputs, unwrap_results,
}
use plugin_play.PropertyTypes.Wrap.RoundTrip.{
  plain_all, Takes, Meets, Meets-map, Lacks, IsApart, wrap_guts-Wrapped,
}

module _ {A : Type 0} (cim : Order String) (print : AnyField A → String) (py : Python A)
    (demangle : Rtti → String) where
  -- The input has a type and the qualification of the field, which is not PythonWrapper, and the
  -- value passes its checks.
  pub record Admits (t : FieldType) (i : ModuleInput A) (v : A) : Type 0 where
    pub native : rtti_same t.clean py.wrapper ≡ false
    pub typed : ModuleInput.has_type i ≡ true
    pub qualified : i.is_cref ≡ t.is_cref
    pub allowed : passes i.checks (wrap_value cim print py demangle i t.is_cref t.clean v) ≡ ok true

  -- The result has a type, and its check takes the value; the type is not PythonWrapper.
  pub record Holds (t : FieldType) (r : ModuleResult A) (v : A) : Type 0 where
    pub native : rtti_same t.clean py.wrapper ≡ false
    pub typed : Res.has_type r ≡ true
    pub allowed :
        (check : AnyField A → Bool) × (r.type_check ≡ some check)
        × (check (Res.wrap_value t.clean v) ≡ true)

  Admits-Takes :
      (t : FieldType) (i : ModuleInput A) (v : A)
      → Admits t i v
      → Takes cim (input_element cim print py demangle) t i v
  unfolding ModuleInput.change ModuleInput.get any_cast rtti_same
  Admits-Takes t i v h = (
    record i { value = wrap_value cim print py demangle i t.is_cref t.clean v },
    ground arith,
    ground (arith, ==-refl t.clean.index),
  )

  Holds-Takes :
      (t : FieldType) (r : ModuleResult A) (v : A)
      → Holds t r v
      → Takes cim (result_element py) t r v
  unfolding Res.change Res.value rtti_same
  Holds-Takes t r v h = elim (Option-cases r.type) [
    | inl e ↦ absurd (ground arith)
    | inr (u, e) ↦ (
      record r { value = some (Res.wrap_value t.clean v) },
      ground (arith, h.allowed.1, h.allowed.2),
      ground (arith, ==-refl t.clean.index),
    )
  ]

  module _ (pt : PropertyType A) (vs : List A) where
    -- For a property type whose inputs have different keys in a map of inputs, and values that the
    -- inputs of these keys admit: wrap_inputs succeeds, unwrap_inputs gives the values back in
    -- their order, and every other input stays as it was.
    pub unwrap_inputs-wrap_inputs :
        (rv : Map String (ModuleInput A)) (builder : FieldTuple (ModuleInput A))
        → inputs (input_element cim print py demangle) pt ≡ ok builder
        → IsApart cim (input_element cim print py demangle) builder
        → Meets cim (input_element cim print py demangle) Admits rv builder vs
        → (after : Map String (ModuleInput A)) × (wrap_inputs cim
              (input_element cim print py demangle)
              pt
              (plain_all vs)
              rv
            ≡ (ok tt, after))
          × (unwrap_inputs cim (input_element cim print py demangle) pt after ≡ ok vs)
          × ((k : String)
              → Lacks cim (input_element cim print py demangle) k builder
              → Map.find cim k after ≡ Map.find cim k rv)
    unfolding wrap_inputs unwrap_inputs
    unwrap_inputs-wrap_inputs rv builder b apart meets =
        let el = input_element cim print py demangle in
        let w =
          wrap_guts-Wrapped cim el builder vs rv apart
            (Meets-map cim el Admits (Takes cim el) Admits-Takes rv builder vs meets) in
        (w.after, ground (arith, w.wraps), ground (arith, w.unwraps), w.others)

    -- For a property type whose results have different keys in a map of results, and values that
    -- the results of these keys hold: wrap_results succeeds, unwrap_results gives the values back
    -- in their order, and every other result stays as it was.
    pub unwrap_results-wrap_results :
        (rv : Map String (ModuleResult A)) (builder : FieldTuple (ModuleResult A))
        → results (result_element py) pt ≡ ok builder
        → IsApart cim (result_element py) builder
        → Meets cim (result_element py) Holds rv builder vs
        → (after : Map String (ModuleResult A)) × (wrap_results cim
              (result_element py)
              pt
              (plain_all vs)
              rv
            ≡ (ok tt, after))
          × (unwrap_results cim (result_element py) pt after ≡ ok vs)
          × ((k : String)
              → Lacks cim (result_element py) k builder
              → Map.find cim k after ≡ Map.find cim k rv)
    unfolding wrap_results unwrap_results
    unwrap_results-wrap_results rv builder b apart meets =
        let el = result_element py in
        let w =
          wrap_guts-Wrapped cim el builder vs rv apart
            (Meets-map cim el Holds (Takes cim el) Holds-Takes rv builder vs meets) in
        (w.after, ground (arith, w.wraps), ground (arith, w.unwraps), w.others)
