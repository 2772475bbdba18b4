-- ===== src/PropertyTypes/Facade.antt =====
-- LambdaModule and make_lambda (cxx/include/pluginplay/module/lambda_module.hpp), FacadeModule and
-- make_facade (cxx/include/pluginplay/module/facade_module.hpp): modules of a property type that
-- wrap a callback, or values. The class template's type is `type`.
pub mod Returns
use plugin_play.Base.{String, List, none, some, ℕ, [], false}
use plugin_play.Base.Order.{Order}
use plugin_play.Base.Result.{Result, ok, ◌>>=◌}
use plugin_play.Types.{Rtti}
use plugin_play.Fields.ModuleInput.{ModuleInput}
use plugin_play.Fields.ModuleResult.{ModuleResult}
use plugin_play.Module.{Module, ModuleBase, ResultMap, make_module}
use plugin_play.Module.Setters.{turn_off_memoization}
use plugin_play.PropertyTypes.FieldTuple.{Element}
use plugin_play.PropertyTypes.Wrap.{PropertyType, Arg, wrap_results}
use plugin_play.PropertyTypes.Declare.{satisfies_property_type}

-- ModuleBase's constructor from a pointer to a derived class
unfoldable pub new_base : {A : Type 0} → Rtti → ℕ → ModuleBase A
new_base type algorithm = record {
  uuid = none;
  inputs = [];
  results = [];
  submods = [];
  property_types = [];
  python_property_types = [];
  type = type;
  desc = none;
  citations = [];
  is_python = false;
  algorithm = algorithm;
  cache = none;
  runtime = none;
}

module _ {A : Type 0} (cim : Order String) (inputs_el : Element A (ModuleInput A))
    (results_el : Element A (ModuleResult A)) (pt : PropertyType A) (type : Rtti)
    (algorithm : ℕ) where
  -- LambdaModule's constructor
  unfoldable pub lambda_module : Result (ModuleBase A)
  unfolding new_base satisfies_property_type
  lambda_module = satisfies_property_type cim inputs_el results_el pt (new_base type algorithm)

  -- make_lambda; `id` is what generate_uuid returns.
  unfoldable pub make_lambda : String → Result (Module A)
  unfolding lambda_module make_module
  make_lambda id = do base ← lambda_module; ok (make_module (record base { uuid = some id }) none)

  -- FacadeModule's constructor: the base and m_results_
  unfoldable pub facade_module : List (Arg A) → Result (ModuleBase A × ResultMap A)
  unfolding new_base satisfies_property_type
  facade_module args = do
    base ← satisfies_property_type cim inputs_el results_el pt (new_base type algorithm)
    let (wrap, rv) = wrap_results cim results_el pt args base.results
    done ← wrap
    ok (base, rv)

  -- make_facade: the module and m_results_
  unfoldable pub make_facade : List (Arg A) → Result (Module A × ResultMap A)
  unfolding facade_module make_module turn_off_memoization
  make_facade args = do
    made ← facade_module args
    m ← turn_off_memoization (make_module made.0 none)
    ok (m, made.1)
