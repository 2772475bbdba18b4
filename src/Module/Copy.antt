-- ===== src/Module/Copy.antt =====
-- The copy constructor of Module (cxx/src/pluginplay/module/module.cpp) and of what it copies with
-- it: ModulePIMPL, its inputs, and its submodule requests. The base is shared, and so are the
-- modules that the requests lead to.
pub mod Owned
use plugin_play.Base.{String, List, [], ◌∷◌}
use plugin_play.Base.Map.{Map}
use plugin_play.Base.Result.{Result, ok, ◌>>=◌}
use plugin_play.Any.{Python}
use plugin_play.Fields.ModuleInput.{ModuleInput, copy_input}
use plugin_play.Module.{Module, SubmoduleRequest, InputMap, SubmoduleMap}

-- A copy of a map copies its values.
unfoldable pub copy_values : {V : Type 0} → (V → Result V) → Map String V → Result (Map String V)
copy_values copy [] = ok []
copy_values copy ((k, v) ∷ m) = do c ← copy v; rest ← copy_values copy m; ok ((k, c) ∷ rest)

module _ {A : Type 0} (py : Python A) where
  unfoldable pub copy_inputs : InputMap A → Result (InputMap A)
  unfolding copy_values copy_input
  copy_inputs inputs = copy_values (λ i. copy_input py i) inputs

  -- SubmoduleRequestPIMPL::clone
  unfoldable pub copy_request : SubmoduleRequest A → Result (SubmoduleRequest A)
  unfolding copy_inputs
  copy_request r = do inputs ← copy_inputs r.inputs; ok (record r { inputs = inputs })

  unfoldable pub copy_submods : SubmoduleMap A → Result (SubmoduleMap A)
  unfolding copy_values copy_request
  copy_submods submods = copy_values (λ r. copy_request r) submods

  -- Module::Module(const Module&)
  unfoldable pub copy_of : Module A → Result (Module A)
  unfolding copy_inputs copy_submods
  copy_of m = do
    inputs ← copy_inputs m.inputs
    submods ← copy_submods m.submods
    ok (record m { inputs = inputs; submods = submods })
