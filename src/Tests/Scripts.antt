-- ===== src/Tests/Scripts.antt =====
-- A property type that is made at run time: a schema and a depth, both Python objects.
use plugin_play.Base.{ℕ, String, false, ◌≡◌, refl, [], ◌∷◌}
use plugin_play.Base.Map
use plugin_play.Base.Map.{Map}
use plugin_play.Base.Order.{same, less_nat}
use plugin_play.Base.TextOrder.{text_order, less_text}
use plugin_play.Base.Result.{Result, ok, err}
use plugin_play.Types.{rtti_same}
use plugin_play.Any.{Python, any_is_convertible, any_cast}
use plugin_play.Fields.ModuleInput
use plugin_play.Fields.ModuleInput.{ModuleInput, passes}
use plugin_play.PropertyTypes.FieldTuple.{Element, input_element}
use plugin_play.PropertyTypes.Wrap.RoundTrip.{Lacks}
use plugin_play.PropertyTypes.PythonOnly.{Fields, declare, wrap, unwrap_all}
use plugin_play.PropertyTypes.PythonOnly.RoundTrip.{objects, unwrap_all-wrap}
use plugin_play.Tests.Data.{py, print, demangle}

-- Every object can be read as a PythonWrapper.
abbrev objects_py : Python ℕ
objects_py = record py { convertible = λ a t. rtti_same t.clean py.wrapper }

abbrev el : Element ℕ (ModuleInput ℕ)
el = input_element text_order print objects_py demangle

abbrev declared : Fields (ModuleInput ℕ)
declared =
    (declare text_order el py.wrapper "depth"
      (declare text_order el py.wrapper "schema" (record { map = []; order = [] })).1).1

abbrev or_input : Result (ModuleInput ℕ) → ModuleInput ℕ
or_input (ok i) = i
or_input (err e) = ModuleInput.empty

abbrev typed : ModuleInput ℕ
typed = (el.set_type ModuleInput.empty (record { clean = py.wrapper; is_cref = false })).1

unwrap_all-wrap_example :
    (after : Map String (ModuleInput ℕ)) × (wrap text_order el py.wrapper "Parser" "inputs" declared
        (7 ∷ 2 ∷ [])
        declared.map
      ≡ ok after)
    × (unwrap_all text_order el py.wrapper declared.order after ≡ ok (7 ∷ 2 ∷ []))
    × ((k : String)
        → Lacks text_order el k (objects text_order el py.wrapper declared.order)
        → Map.find text_order k after ≡ Map.find text_order k declared.map)
unfolding declare passes rtti_same Map.find Map.assign same less_text less_nat ModuleInput.change
    any_is_convertible any_cast ModuleInput.get ModuleInput.empty ModuleInput.set_type_as
unwrap_all-wrap_example =
    unwrap_all-wrap text_order el py.wrapper "Parser" "inputs" declared (7 ∷ 2 ∷ []) declared.map
      ((refl, tt), (tt, tt))
      (
        (typed, refl, (or_input (el.change typed false py.wrapper 7), refl, refl)),
        ((typed, refl, (or_input (el.change typed false py.wrapper 2), refl, refl)), tt),
      )
