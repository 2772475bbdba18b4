-- ===== src/PropertyTypes/PythonOnly.antt =====
-- PythonOnlyPropertyType (cxx/include/pluginplay/property_type/python_only_property_type.hpp and
-- cxx/src/pluginplay/property_type/python_only_property_type.cpp): a property type that is made at
-- run time, whose fields hold Python objects. Inputs and results share their code here.
pub mod RoundTrip
use plugin_play.Base.{
  ℕ, String, concat, false, Option, none, some, List, [], ◌∷◌, ◌++◌, length, ◌==◌,
}
use plugin_play.Base.Order.{Order}
use plugin_play.Base.Map.{Map, find, assign, at, emplace}
use plugin_play.Base.Set
use plugin_play.Base.Result.{Result, ok, err, runtime_error, out_of_range, guard, ◌>>=◌, ◌>>◌}
use plugin_play.Base.Exec.{Exec, reads, ◌>>=◌ as bind}
use plugin_play.Types.{Rtti, rtti_order}
use plugin_play.Fields.ModuleInput.{ModuleInput}
use plugin_play.Fields.ModuleResult.{ModuleResult}
use plugin_play.Module.{ModuleBase, InputMap, Store, assert_mod, deref}
use plugin_play.Module.Setters.{check_python_property_type}
use plugin_play.Module.World.{World}
use plugin_play.Module.Run.{run}
use plugin_play.PropertyTypes.FieldTuple.{Element, FieldType}
use plugin_play.PropertyTypes.RunAs.{inputs_of, results_of}

-- m_inputs_ with m_input_order_, or m_results_ with m_result_order_
pub record Fields (E : Type 0) : Type 0 where
  pub map : Map String E
  pub order : List String

pub record PythonOnly (A : Type 0) : Type 0 where
  pub name : String
  pub inputs : Fields (ModuleInput A)
  pub results : Fields (ModuleResult A)

-- PythonWrapper, by value
abbrev pub object_type : Rtti → FieldType
object_type wrapper = record { clean = wrapper; is_cref = false }

abbrev pub get_or {ℓ} : {E : Type ℓ} → E → Option E → E
get_or e none = e
get_or e (some f) = f

module _ {A E : Type 0} (cim : Order String) (el : Element A E) (wrapper : Rtti) where
  -- declare_input and declare_result
  unfoldable pub declare : String → Fields E → Result (Unit {0}) × Fields E
  unfolding find assign
  declare key fs =
      let (set, e) = el.set_type (get_or el.empty (find cim key fs.map)) (object_type wrapper) in
      let there = record fs { map = assign cim key e fs.map } in
      elim set [
        | err x ↦ (err x, there)
        | ok done ↦ (ok tt, record there { order = fs.order ++ (key ∷ []) })
      ]

  -- the loop of wrap_inputs and wrap_results; there is an argument for each key.
  unfoldable pub wrap_all : List String → List A → Map String E → Result (Map String E)
  unfolding find assign
  wrap_all (key ∷ order) (arg ∷ args) rv = do
    e ← at cim key rv (out_of_range "map::at")
    changed ← el.change e false wrapper arg
    wrap_all order args (assign cim key changed rv)
  wrap_all _ _ rv = ok rv

  -- wrap_inputs and wrap_results; `what` is "inputs" or "results".
  unfoldable pub wrap : String → String → Fields E → List A → Map String E → Result (Map String E)
  unfolding wrap_all
  wrap name what fs args rv =
      let msg =
        concat (concat (concat "PythonOnlyPropertyType \"" name) "\": wrong number of positional ")
          what in
      guard (length args == length fs.order) (runtime_error msg) >> wrap_all fs.order args rv

  -- unwrap_inputs and unwrap_results
  unfoldable pub unwrap_all : List String → Map String E → Result (List A)
  unfolding find
  unwrap_all [] rv = ok []
  unwrap_all (key ∷ order) rv = do
    e ← at cim key rv (out_of_range "map::at")
    v ← el.value e (object_type wrapper)
    rest ← unwrap_all order rv
    ok (v ∷ rest)

-- std::map::insert of a range of a map
unfoldable pub insert_entries :
    {E : Type 0} → Order String → Map String E → Map String E → Map String E
unfolding emplace
insert_entries cim [] m = m
insert_entries cim ((k, e) ∷ fields) m = insert_entries cim fields (emplace cim k e m)

-- ModuleBase::satisfies_property_type of a Python-only property type; `type` is the C++ type of all
-- of them.
unfoldable pub satisfies_python :
    {A : Type 0} → Order String → Order String → Rtti → PythonOnly A → ModuleBase A → ModuleBase A
unfolding insert_entries Set.insert
satisfies_python cim strings type pt base = record base {
  property_types = Set.insert rtti_order type base.property_types;
  inputs = insert_entries cim pt.inputs.map base.inputs;
  results = insert_entries cim pt.results.map base.results;
  python_property_types = Set.insert strings pt.name base.python_property_types;
}

module _ {A C : Type 0} (w : World A C) where
  -- Module::run_as of a Python-only property type
  unfoldable pub run_as_python : ℕ → ℕ → PythonOnly A → List A → Exec (Store A C) (List A)
  unfolding check_python_property_type wrap unwrap_all run
  run_as_python n a pt args = bind (reads (λ st. deref st a)) (λ m.
      bind (reads (λ st. check_python_property_type w.strings m pt.name)) (λ _.
        bind (reads (λ st. assert_mod m)) (λ base.
          bind
            (reads (λ st.
              wrap w.cim (inputs_of w) w.py.wrapper pt.name "inputs" pt.inputs args m.inputs))
            (λ temp. bind (run w n a temp) (λ rv.
              reads (λ st. unwrap_all w.cim (results_of w) w.py.wrapper pt.results.order rv))))))
