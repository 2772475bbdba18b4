-- ===== src/PropertyTypes/Declare.antt =====
-- ModuleBase::satisfies_property_type (cxx/include/pluginplay/module/module_base.hpp), by which a
-- developer declares that an algorithm computes a property type.
use plugin_play.Base.{String, true, ◌≡◌, refl, Option, none, some, [], ◌∷◌, arith, if◌then◌else◌}
use plugin_play.Base.Order.{Order, same}
use plugin_play.Base.Map.{Map, find, emplace, find-emplace, find_congr}
use plugin_play.Base.Set
use plugin_play.Base.Result.{Result, ok, ◌>>=◌}
use plugin_play.Types.{rtti_order}
use plugin_play.Fields.ModuleInput.{ModuleInput}
use plugin_play.Fields.ModuleResult.{ModuleResult}
use plugin_play.Module.{ModuleBase}
use plugin_play.Module.Setters.{suitable}
use plugin_play.Module.Setters.Suitable.{suitable-insert}
use plugin_play.PropertyTypes.FieldTuple.{Element, FieldTuple}
use plugin_play.PropertyTypes.Wrap.{PropertyType, rtti_of, inputs, results}

abbrev pub or_else : {E : Type 0} → Option E → Option E → Option E
or_else none o = o
or_else (some x) o = some x

module _ {E : Type 0} (cim : Order String) where
  -- std::map::insert of a range
  unfoldable pub insert_fields : FieldTuple E → Map String E → Map String E
  unfolding emplace
  insert_fields [] m = m
  insert_fields (f ∷ fields) m = insert_fields fields (emplace cim f.key f.field m)

  -- The field that is called `k`
  abbrev pub field_of : String → FieldTuple E → Option E
  field_of k [] = none
  field_of k (f ∷ fields) = if same cim f.key k then some f.field else field_of k fields

  pub find-insert_fields :
      (k : String) (fields : FieldTuple E) (m : Map String E)
      → find cim k (insert_fields fields m) ≡ or_else (find cim k m) (field_of k fields)
  unfolding insert_fields
  find-insert_fields k [] m = ground arith
  find-insert_fields k (f ∷ fields) m = ground (
    arith,
    find-insert_fields k fields (emplace cim f.key f.field m),
    find-emplace cim f.key k f.field m,
    find_congr cim f.key k m,
  )

module _ {A : Type 0} (cim : Order String) (input_el : Element A (ModuleInput A))
    (result_el : Element A (ModuleResult A)) where
  unfoldable pub satisfies_property_type : PropertyType A → ModuleBase A → Result (ModuleBase A)
  unfolding insert_fields inputs results Set.insert
  satisfies_property_type pt base = do
    ins ← inputs input_el pt
    outs ← results result_el pt
    ok (record base {
      property_types = Set.insert rtti_order (rtti_of pt) base.property_types;
      inputs = insert_fields cim ins base.inputs;
      results = insert_fields cim outs base.results;
    })

  -- Where the inputs and results of a property type can be made, a base that declares the type
  -- satisfies it, whatever it declared before, and holds an
  -- input and a result for each field of the type: those that were declared before are kept, and
  -- of several fields that the maps take for the same the first counts.
  pub find-satisfies_property_type :
      (pt : PropertyType A) (base : ModuleBase A) (ins : FieldTuple (ModuleInput A))
      (outs : FieldTuple (ModuleResult A)) (k : String)
      → inputs input_el pt ≡ ok ins
      → results result_el pt ≡ ok outs
      → (after : ModuleBase A) × (satisfies_property_type pt base ≡ ok after)
        × (suitable (rtti_of pt) after.property_types ≡ true)
        × (find cim k after.inputs ≡ or_else (find cim k base.inputs) (field_of cim k ins))
        × (find cim k after.results ≡ or_else (find cim k base.results) (field_of cim k outs))
  unfolding satisfies_property_type
  find-satisfies_property_type pt base ins outs k i o = (
    record base {
      property_types = Set.insert rtti_order (rtti_of pt) base.property_types;
      inputs = insert_fields cim ins base.inputs;
      results = insert_fields cim outs base.results;
    },
    rw (i, o) refl,
    suitable-insert (rtti_of pt) base.property_types,
    find-insert_fields cim k ins base.inputs,
    find-insert_fields cim k outs base.results,
  )
