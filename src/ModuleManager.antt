-- ===== src/ModuleManager.antt =====
-- ModuleManagerPIMPL (cxx/src/pluginplay/module_manager/detail_/module_manager_pimpl.hpp and .ipp)
-- and ModuleManager (cxx/src/pluginplay/module_manager/module_manager_class.cpp and
-- cxx/include/pluginplay/module_manager/module_manager_class.hpp). The modules live in the store
-- at addresses that std::make_shared hands out.
pub mod Keys
pub mod Defaults
pub mod Complete
pub mod Equal
pub mod Dangling
use plugin_play.Base.{
  ℕ, zero, suc, ◌+◌, String, concat, Bool, true, false, not, ◌&&◌, Option, none, some, has, List,
  [], ◌∷◌, length, ◌==◌, if◌then◌else◌,
}
use plugin_play.Base.Order.{Order}
use plugin_play.Base.Map.{Map, find, count, assign, emplace, erase, keys}
use plugin_play.Base.Result.{
  Result, ok, err, Error, out_of_range, invalid_argument, runtime_error, bad_optional_access, fault,
  overflow, guard, or_throw, noexcept,
}
use plugin_play.Base.Exec.{Exec, pure, throw, reads, ◌>>=◌, ◌>>◌}
use plugin_play.Types.{Rtti, rtti_order}
use plugin_play.Cache.ManagerCache.{CacheState, get_or_make_module_cache, get_or_make_user_cache}
use plugin_play.Any.{AnyField, Python}
use plugin_play.Module.{
  Module, ModuleBase, SubmoduleRequest, SubmoduleMap, InputMap, Store, make_module, deref, write,
  assert_mod,
}
use plugin_play.Module.Ready.{ready, request_ready}
use plugin_play.Module.Setters.{unlocked_copy, set_name, change_submod, change_input}

-- ModuleManagerCache, whose caches are in the store
pub record ManagerCache : Type 0 where
  pub module_caches : Map String ℕ
  pub user_caches : Map String ℕ

-- The manager with the store. `runtime` is the address of the runtime, `fresh` is the next address, `uuids` the next call of generate_uuid.
pub record Manager (A C : Type 0) : Type 0 where
  pub store : Store A C
  pub fresh : ℕ
  pub uuids : ℕ
  pub bases : Map Rtti (ModuleBase A)
  pub py_bases : Map String (ModuleBase A)
  pub modules : Map String ℕ
  pub defaults : Map Rtti String
  pub inputs : Map Rtti (InputMap A)
  pub caches : Option ManagerCache
  pub runtime : Option ℕ

abbrev pub Managed : Type 0 → Type 0 → Type 0 → Type 0
Managed A C B = Exec (Manager A C) B

-- `cim` and `strings` are the comparators of CaseInsensitiveMap and of std::map<std::string>,
-- `uuid` the identifiers that boost's generator returns, `new_cache` what makes an
-- empty cache at an address, for a key.
module _ {A C : Type 0} (cim strings : Order String) (demangle : Rtti → String) (uuid : ℕ → String)
    (new_cache : ℕ → String → C → C) where
  -- ModuleManagerPIMPL::count
  unfoldable pub has_key : String → Manager A C → Bool
  has_key key mm = count cim key mm.modules

  unfoldable pub size : Manager A C → ℕ
  size mm = length mm.modules

  -- ModuleManagerPIMPL::keys
  unfoldable pub get_keys : Manager A C → List String
  get_keys mm = keys mm.modules

  -- std::make_shared<Module>
  unfoldable pub allocate : Module A → Managed A C ℕ
  unfolding write
  allocate m mm =
      (ok mm.fresh, record mm { store = write mm.store mm.fresh m; fresh = suc mm.fresh })

  -- m_modules.emplace
  unfoldable pub put_module : String → ℕ → Managed A C Unit
  put_module key a mm = (ok tt, record mm { modules = emplace cim key a mm.modules })

  -- utility::generate_uuid
  unfoldable pub generate_uuid : Managed A C String
  generate_uuid mm = (ok (uuid mm.uuids), record mm { uuids = suc mm.uuids })

  -- `if(m_pcaches) m_pcaches->...`, and the pointer that the call returns
  unfoldable pub with_caches : Exec (CacheState C) ℕ → Managed A C (Option ℕ)
  with_caches call mm = elim mm.caches [
    | none ↦ (ok none, mm)
    | some made ↦
        let st = mm.store in
        let (result, s) = call (record {
          fresh = mm.fresh;
          heap = st.caches;
          module_caches = made.module_caches;
          user_caches = made.user_caches;
        }) in
        (
          elim result [ ok p ↦ ok (some p) | err e ↦ err e ],
          record mm {
            store = record st { caches = s.heap };
            fresh = s.fresh;
            caches = some (record { module_caches = s.module_caches; user_caches = s.user_caches });
          },
        )
  ]

  -- m_py_bases[key] = base, or m_bases[type] unless that type has a base already
  unfoldable pub store_base : String → ModuleBase A → Managed A C (ModuleBase A)
  store_base key base mm =
      if base.is_python
      then (ok base, record mm { py_bases = assign strings key base mm.py_bases })
      else elim (find rtti_order base.type mm.bases) [
        | some old ↦ (ok old, mm)
        | none ↦ (ok base, record mm { bases = assign rtti_order base.type base mm.bases })
      ]

  abbrev assert_unique_key : String → Managed A C Unit
  assert_unique_key key =
      reads (λ mm. guard (not (has_key key mm)) (invalid_argument "Key is in use"))

  -- ModuleManagerPIMPL::set_runtime
  unfoldable pub set_runtime : Option ℕ → Managed A C Unit
  set_runtime runtime mm = (ok tt, record mm { runtime = runtime })

  -- ModuleManagerPIMPL::get_runtime
  unfoldable pub get_runtime : Manager A C → Result ℕ
  get_runtime mm = or_throw mm.runtime fault

  -- ModuleManagerPIMPL::has_cache
  unfoldable pub has_cache : Manager A C → Bool
  has_cache mm = has mm.caches

  -- what add_module gives to the base
  unfoldable pub equip : String → Option ℕ → Option ℕ → ModuleBase A → ModuleBase A
  equip id runtime internal base = record base {
    uuid = some id;
    runtime = runtime;
    cache = if has internal then internal else base.cache;
  }

  -- ModuleManagerPIMPL::add_module. The base is the caller's object: no other module has it.
  unfoldable pub add_module : String → ModuleBase A → Managed A C Unit
  unfolding has_key generate_uuid with_caches equip store_base allocate put_module make_module
      set_name
  add_module key base = do
    assert_unique_key key
    id ← generate_uuid
    internal ← with_caches (get_or_make_user_cache strings new_cache id)
    cache ← with_caches (get_or_make_module_cache strings new_cache key)
    runtime ← reads (λ mm. ok mm.runtime)
    kept ← store_base key (equip id runtime internal base)
    a ← allocate (set_name (make_module kept cache) key)
    put_module key a

  -- ModuleManagerPIMPL::copy_module
  unfoldable pub copy_module : Python A → String → String → Managed A C Unit
  unfolding has_key unlocked_copy set_name allocate put_module
  copy_module py old_key new_key = do
    assert_unique_key new_key
    a ← reads (λ mm. or_throw (find cim old_key mm.modules) (out_of_range "map::at"))
    m ← reads (λ mm. deref mm.store a)
    copy ← reads (λ mm. unlocked_copy py m)
    b ← allocate (set_name copy new_key)
    put_module new_key b

  -- ModuleManagerPIMPL::erase
  unfoldable pub erase_module : String → Managed A C Unit
  erase_module key mm = (ok tt, record mm { modules = erase cim key mm.modules })

  -- ModuleManager::rename_module
  unfoldable pub rename_module : Python A → String → String → Managed A C Unit
  unfolding copy_module erase_module
  rename_module py old_key new_key = do copy_module py old_key new_key; erase_module old_key

  -- ModuleManagerPIMPL::set_default
  unfoldable pub set_default : Rtti → InputMap A → String → Managed A C Unit
  unfolding has_key
  set_default type inputs key = do
    reads (λ mm. guard (has_key key mm) (out_of_range "map::at"))
    λ mm. (
      ok tt,
      record mm {
        defaults = assign rtti_order type key mm.defaults;
        inputs = assign rtti_order type inputs mm.inputs;
      },
    )

  -- the body of the loop of `at`, for the submodule request under `k`: `go` is `at`. A request
  -- that the calls for the requests before it have changed is read as it is now.
  unfoldable pub fill_default : ℕ → (String → Managed A C ℕ) → ℕ → String → Managed A C Unit
  unfolding request_ready ready change_submod write
  fill_default n go a k = do
    m ← reads (λ mm. deref mm.store a)
    r ← reads (λ mm. or_throw (find cim k m.submods) fault)
    type ← reads (λ mm. or_throw r.type bad_optional_access)
    fine ←
        reads (λ mm. noexcept (request_ready strings (λ b inps. ready strings n mm.store b inps) r))
    default ← reads (λ mm. ok (find rtti_order type mm.defaults))
    let fill = λ (key : String). (do
      b ← go key
      inps ← reads (λ mm. or_throw (find rtti_order type mm.inputs) (out_of_range "map::at"))
      good ← reads (λ mm. ready strings n mm.store b inps)
      now ← reads (λ mm. deref mm.store a)
      m' ← reads (λ mm. if good then change_submod cim demangle mm.store now k (some b) else ok now)
      λ mm. (ok tt, record mm { store = write mm.store a m' }))
    if fine then pure tt else elim default [ none ↦ pure tt | some key ↦ fill key ]

  unfoldable pub fill_defaults : ℕ → (String → Managed A C ℕ) → ℕ → List String → Managed A C Unit
  unfolding fill_default
  fill_defaults n go a [] = pure tt
  fill_defaults n go a (k ∷ submods) = do fill_default n go a k; fill_defaults n go a submods

  -- ModuleManagerPIMPL::at, which finds defaults by calling itself
  unfoldable pub at : ℕ → String → Managed A C ℕ
  unfolding fill_defaults has_key
  at zero key = throw overflow
  at (suc n) key = do
    let msg = concat (concat "ModuleManager has no module with key: '" key) "'"
    reads (λ mm. guard (has_key key mm) (out_of_range msg))
    a ← reads (λ mm. or_throw (find cim key mm.modules) (out_of_range "map::at"))
    m ← reads (λ mm. deref mm.store a)
    base ← reads (λ mm. assert_mod m)
    fill_defaults n (λ k. at n k) a (keys m.submods)
    pure a

  -- ModuleManager::change_submod
  unfoldable pub change_submod_of : ℕ → String → String → String → Managed A C Unit
  unfolding at change_submod write
  change_submod_of n module_key callback_key submod_key = do
    a ← at n module_key
    b ← at n submod_key
    m ← reads (λ mm. deref mm.store a)
    m' ← reads (λ mm. change_submod cim demangle mm.store m callback_key (some b))
    λ mm. (ok tt, record mm { store = write mm.store a m' })
