-- ===== src/Module/Ready.antt =====
-- ModulePIMPL::not_set, ready (cxx/src/pluginplay/module/detail_/module_pimpl.ipp) and
-- SubmoduleRequestPIMPL::ready (cxx/src/pluginplay/detail_/submodule_request_pimpl.ipp). The
-- recursion through the submodules takes fuel: one unit for each level of submodules.
pub mod Laws
pub mod Fuel
use plugin_play.Base.{
  ℕ, zero, suc, String, Bool, true, false, ◌&&◌, ◌||◌, Option, none, some, List, [], ◌∷◌,
  if◌then◌else◌,
}
use plugin_play.Base.Order.{Order}
use plugin_play.Base.Map.{Map}
use plugin_play.Base.Set
use plugin_play.Base.Result.{Result, ok, err, overflow, noexcept, ◌>>=◌, ◌>>◌}
use plugin_play.Fields.ModuleInput.{ModuleInput, is_ready}
use plugin_play.Module.{Module, SubmoduleRequest, InputMap, Store, assert_mod, deref}

-- not_set: the keys under "Inputs" and under "Submodules"
pub record NotSet : Type 0 where
  pub inputs : List String
  pub submodules : List String

abbrev pub is_empty : {A : Type 0} → List A → Bool
is_empty [] = true
is_empty (x ∷ xs) = false

-- `strings` orders std::set<std::string>.
module _ (strings : Order String) where
  -- not_set_guts_: the keys whose fields are not ready
  unfoldable pub not_set_guts :
      {V : Type 0} → (V → Result Bool) → Map String V → List String → Result (List String)
  not_set_guts ready [] probs = ok probs
  not_set_guts ready ((k, v) ∷ map) probs = do
    fine ← ready v
    not_set_guts ready map (if fine then probs else Set.insert strings k probs)

  -- std::set::erase, for each key that is given
  unfoldable pub erase_given : {V : Type 0} → Map String V → List String → List String
  erase_given [] probs = probs
  erase_given ((k, v) ∷ given) probs = erase_given given (Set.erase strings k probs)

  module _ {A : Type 0} where
    -- SubmoduleRequestPIMPL::ready; `go` is Module::ready.
    unfoldable pub request_ready : (ℕ → InputMap A → Result Bool) → SubmoduleRequest A → Result Bool
    request_ready go r = elim r.type [
      | none ↦ ok false
      | some t ↦ elim r.module_ptr [ none ↦ ok false | some b ↦ go b r.inputs ]
    ]

    -- ModulePIMPL::not_set
    unfoldable pub not_set : (ℕ → InputMap A → Result Bool) → Module A → InputMap A → Result NotSet
    unfolding not_set_guts erase_given request_ready is_ready
    not_set go m in_inputs = do
      base ← assert_mod m
      in_probs ← not_set_guts (λ i. ok (is_ready i)) m.inputs []
      submod_probs ← not_set_guts (λ r. noexcept (request_ready go r)) m.submods []
      ok (record { inputs = erase_given in_inputs in_probs; submodules = submod_probs })

    -- ModulePIMPL::ready, at the address of a module
    unfoldable pub ready : {C : Type 0} → ℕ → Store A C → ℕ → InputMap A → Result Bool
    unfolding not_set
    ready zero st a inps = err overflow
    ready (suc n) st a inps = do
      m ← deref st a
      errors ← not_set (λ b r. ready n st b r) m inps
      ok (is_empty errors.inputs && is_empty errors.submodules)
