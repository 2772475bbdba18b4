-- ===== src/Module.antt =====
-- The state of modules: ModuleBase (cxx/include/pluginplay/module/module_base.hpp),
-- SubmoduleRequestPIMPL (cxx/src/pluginplay/detail_/submodule_request_pimpl.hpp) and ModulePIMPL
-- with the name of its Module (cxx/src/pluginplay/module/detail_/module_pimpl.hpp). A
-- std::shared_ptr<Module> is an address of the store, so that a module that is a submodule of
-- several others, or is held by a ModuleManager, is one object.
pub mod Ready
pub mod Lock
pub mod Copy
pub mod Setters
pub mod Requests
pub mod Memo
pub mod World
pub mod Report
pub mod Profile
pub mod Run
pub mod Equal
use plugin_play.Base.{
  ℕ, String, Bool, true, false, Option, none, some, List, [], ◌==◌, if◌then◌else◌,
}
use plugin_play.Base.Map.{Map}
use plugin_play.Base.Result.{Result, ok, err, Error, runtime_error, fault, or_throw}
use plugin_play.Types.{Rtti}
use plugin_play.Fields.ModuleInput.{ModuleInput}
use plugin_play.Fields.ModuleResult.{ModuleResult}

abbrev pub InputMap : Type 0 → Type 0
InputMap A = Map String (ModuleInput A)

abbrev pub ResultMap : Type 0 → Type 0
ResultMap A = Map String (ModuleResult A)

-- SubmoduleRequestPIMPL
pub record SubmoduleRequest (A : Type 0) : Type 0 where
  pub desc : Option String
  pub type : Option Rtti
  pub inputs : InputMap A
  pub module_ptr : Option ℕ

abbrev pub SubmoduleMap : Type 0 → Type 0
SubmoduleMap A = Map String (SubmoduleRequest A)

-- ModuleBase; `algorithm` names the developer's run_. A uuid of `none` is the empty string; `cache`
-- is the address of the module's internal cache, `runtime` that of its runtime.
pub record ModuleBase (A : Type 0) : Type 0 where
  pub uuid : Option String
  pub inputs : InputMap A
  pub results : ResultMap A
  pub submods : SubmoduleMap A
  pub property_types : List Rtti
  pub python_property_types : List String
  pub type : Rtti
  pub desc : Option String
  pub citations : List String
  pub is_python : Bool
  pub algorithm : ℕ
  pub cache : Option ℕ
  pub runtime : Option ℕ

-- ModulePIMPL, and m_name_ of the Module around it
pub record Module (A : Type 0) : Type 0 where
  pub locked : Bool
  pub memoizable : Bool
  pub base : Option (ModuleBase A)
  pub cache : Option ℕ
  pub inputs : InputMap A
  pub submods : SubmoduleMap A
  pub property_types : List Rtti
  pub python_property_types : List String
  pub name : Option String

-- All modules that are alive, and the members of all caches.
pub record Store (A C : Type 0) : Type 0 where
  pub modules : ℕ → Option (Module A)
  pub caches : C

module _ {A : Type 0} where
  -- ModulePIMPL's constructor from a base and a cache
  unfoldable pub make_module : ModuleBase A → Option ℕ → Module A
  make_module base cache = record {
    locked = false;
    memoizable = true;
    base = some base;
    cache = cache;
    inputs = base.inputs;
    submods = base.submods;
    property_types = base.property_types;
    python_property_types = base.python_property_types;
    name = none;
  }

  -- ModuleBase::get_cache
  unfoldable pub get_cache : ModuleBase A → Result ℕ
  get_cache base = or_throw base.cache (runtime_error "Module does not have an interal cache")

  -- ModuleBase::get_runtime
  unfoldable pub get_runtime : ModuleBase A → Result ℕ
  get_runtime base = or_throw base.runtime (runtime_error "Module does not a Runtime instance")

  -- ModulePIMPL::assert_mod_
  abbrev pub assert_mod : Module A → Result (ModuleBase A)
  assert_mod m = or_throw m.base (runtime_error "Module does not contain an implementation")

module _ {A C : Type 0} where
  -- The module that a pointer points to.
  abbrev pub deref : Store A C → ℕ → Result (Module A)
  deref st a = or_throw (st.modules a) fault

  -- A write through a pointer.
  unfoldable pub write : Store A C → ℕ → Module A → Store A C
  write st a m = record st { modules = λ b. if a == b then some m else st.modules b }
