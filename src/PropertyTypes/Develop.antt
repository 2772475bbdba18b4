-- ===== src/PropertyTypes/Develop.antt =====
-- What a developer's constructor calls (cxx/include/pluginplay/module/module_base.hpp): texts,
-- inputs, results and submodules beside those of the property types.
use plugin_play.Base.{String, ◌≡◌, none, some, [], ◌∷◌, ◌++◌, arith, if◌then◌else◌}
use plugin_play.Base.Order.{Order, same}
use plugin_play.Base.Map.{Map, find, assign, find-assign}
use plugin_play.Base.Result.{Result, ok, err, ◌>>=◌}
use plugin_play.Fields.ModuleInput.{ModuleInput}
use plugin_play.Fields.ModuleResult.{ModuleResult}
use plugin_play.Module.{ModuleBase, SubmoduleRequest, Store}
use plugin_play.Module.Requests
use plugin_play.Module.Setters.{set_type}
use plugin_play.PropertyTypes.FieldTuple.{Element, FieldType}
use plugin_play.PropertyTypes.Wrap.{PropertyType, rtti_of, inputs}
use plugin_play.PropertyTypes.Declare.{insert_fields}
use plugin_play.PropertyTypes.PythonOnly.{get_or}

module _ {A : Type 0} where
  unfoldable pub description : String → ModuleBase A → ModuleBase A
  description text base = record base { desc = some text }

  unfoldable pub citation : String → ModuleBase A → ModuleBase A
  citation text base = record base { citations = base.citations ++ (text ∷ []) }

module _ {A E : Type 0} (cim : Order String) (el : Element A E) where
  -- m[key].set_type<T>(): the field is made, also where set_type throws.
  unfoldable pub add_element : String → FieldType → Map String E → Result (Unit {0}) × Map String E
  unfolding find assign
  add_element key type m =
      let (set, e) = el.set_type (get_or el.empty (find cim key m)) type in
      (set, assign cim key e m)

  -- A field whose key is not in use is the empty field with the type; all others are as they were.
  find-add_element :
      (key k : String) (type : FieldType) (m : Map String E)
      → find cim key m ≡ none
      → find cim k (add_element key type m).1
        ≡ (if same cim key k then some (el.set_type el.empty type).1 else find cim k m)
  unfolding add_element
  find-add_element key k type m h =
      ground (arith, find-assign cim key k (el.set_type el.empty type).1 m)

module _ {A : Type 0} (cim : Order String) where
  unfoldable pub add_input :
      Element A (ModuleInput A)
      → String
      → FieldType
      → ModuleBase A
      → Result (Unit {0}) × ModuleBase A
  unfolding add_element
  add_input el key type base =
      let (set, m) = add_element cim el key type base.inputs in (set, record base { inputs = m })

  unfoldable pub add_result :
      Element A (ModuleResult A)
      → String
      → FieldType
      → ModuleBase A
      → Result (Unit {0}) × ModuleBase A
  unfolding add_element
  add_result el key type base =
      let (set, m) = add_element cim el key type base.results in (set, record base { results = m })

  -- SubmoduleRequest::set_type<T>
  unfoldable pub set_property_type :
      {C : Type 0}
      → Element A (ModuleInput A)
      → Store A C
      → PropertyType A
      → SubmoduleRequest A
      → Result (SubmoduleRequest A)
  unfolding inputs insert_fields set_type
  set_property_type el st pt r = do
    fields ← inputs el pt
    set_type st r (rtti_of pt) (insert_fields cim fields [])

  unfoldable pub add_submodule :
      {C : Type 0}
      → Element A (ModuleInput A)
      → Store A C
      → String
      → PropertyType A
      → ModuleBase A
      → Result (Unit {0}) × ModuleBase A
  unfolding set_property_type find assign
  add_submodule el st key pt base =
      let request = get_or Requests.empty (find cim key base.submods) in
      elim (set_property_type el st pt request) [
        | err x ↦ (err x, record base { submods = assign cim key request base.submods })
        | ok r ↦ (ok tt, record base { submods = assign cim key r base.submods })
      ]
