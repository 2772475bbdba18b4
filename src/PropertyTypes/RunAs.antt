-- ===== src/PropertyTypes/RunAs.antt =====
-- Module::run_as (cxx/include/pluginplay/module/module_class.hpp): a run with typed arguments and
-- results, and SubmoduleRequest::run_as (cxx/include/pluginplay/submodule_request.hpp).
pub mod Computes
use plugin_play.Base.{ℕ, List, Bool}
use plugin_play.Base.Result.{
  Result, ok, bad_optional_access, invalid_argument, runtime_error, guard, or_throw, ◌>>=◌ as then,
}
use plugin_play.Types.{rtti_equal}
use plugin_play.Base.Exec.{Exec, reads, ◌>>=◌, ◌>>◌}
use plugin_play.Fields.ModuleInput.{ModuleInput}
use plugin_play.Fields.ModuleResult.{ModuleResult}
use plugin_play.Module.{Store, SubmoduleRequest, assert_mod, deref}
use plugin_play.Module.Setters.{check_property_type}
use plugin_play.Module.World.{World}
use plugin_play.Module.Run.{run}
use plugin_play.PropertyTypes.FieldTuple.{Element, input_element, result_element}
use plugin_play.PropertyTypes.Wrap.{PropertyType, Arg, rtti_of, wrap_inputs, unwrap_results}

module _ {A C : Type 0} (w : World A C) where
  abbrev pub inputs_of : Element A (ModuleInput A)
  inputs_of = input_element w.cim w.print w.py w.demangle

  abbrev pub results_of : Element A (ModuleResult A)
  results_of = result_element w.py

  -- run_as<property_type>(args...)
  unfoldable pub run_as : ℕ → ℕ → PropertyType A → List (Arg A) → Exec (Store A C) (List A)
  unfolding check_property_type wrap_inputs unwrap_results run
  run_as n a pt args = do
    m ← reads (λ st. deref st a)
    reads (λ st. check_property_type w.demangle m (rtti_of pt))
    base ← reads (λ st. assert_mod m)
    let (wrap, temp) = wrap_inputs w.cim inputs_of pt args m.inputs
    reads (λ st. wrap)
    rv ← run w n a temp
    reads (λ st. unwrap_results w.cim results_of pt rv)

  -- SubmoduleRequest::run_as<property_type>(args...)
  unfoldable pub request_run_as :
      ℕ → SubmoduleRequest A → PropertyType A → List (Arg A) → Exec (Store A C) (List A)
  unfolding run_as rtti_equal
  request_run_as n r pt args = do
    t ← reads (λ st. or_throw r.type bad_optional_access)
    reads (λ st. guard (rtti_equal t (rtti_of pt)) (invalid_argument "Wrong property type"))
    a ← reads (λ st. or_throw r.module_ptr (runtime_error "Submodule is not ready"))
    run_as n a pt args
