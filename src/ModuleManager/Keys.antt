-- ===== src/ModuleManager/Keys.antt =====
-- The keys of a ModuleManager: adding, copying, renaming and erasing modules.
use plugin_play.Base.{ℕ, suc, ◌<◌, String, true, false, ◌≡◌, refl, none, some, arith, if◌then◌else◌}
use plugin_play.Base.Order.{Order, same}
use plugin_play.Base.Map.{Map, find, emplace, find-emplace, find-erase}
use plugin_play.Base.Result.{ok, err, invalid_argument}
use plugin_play.Base.Exec.{Exec}
use plugin_play.Types.{Rtti, rtti_order}
use plugin_play.Module.{Module, ModuleBase, write}
use plugin_play.Any.{Python}
use plugin_play.Module.Copy.Owned.{HoldsNoPython, owned_module, copy_of-owned}
use plugin_play.Module.Lock.{unlock}
use plugin_play.Module.Setters.{unlocked_copy}
use plugin_play.ModuleManager.{Manager, Managed, has_key, add_module, copy_module, rename_module}

module _ {A C : Type 0} (cim strings : Order String) (demangle : Rtti → String) (uuid : ℕ → String)
    (new_cache : ℕ → String → C → C) where
  -- The manager after a call.
  abbrev pub after : {B : Type 0} → Managed A C B → Manager A C → Manager A C
  after m mm = (m mm).1

  -- A key that is in use is refused by add_module, and as the new key by copy_module and
  -- rename_module; the manager stays as it is.
  key_in_use :
      (py : Python A) (mm : Manager A C) (key old : String) (base : ModuleBase A)
      → has_key cim strings demangle uuid new_cache key mm ≡ true
      → (add_module cim strings demangle uuid new_cache key base mm
          ≡ (err (invalid_argument "Key is in use"), mm))
        × (copy_module cim strings demangle uuid new_cache py old key mm
            ≡ (err (invalid_argument "Key is in use"), mm))
        × (rename_module cim strings demangle uuid new_cache py old key mm
            ≡ (err (invalid_argument "Key is in use"), mm))
  unfolding add_module copy_module rename_module
  key_in_use py mm key old base h = (ground arith, ground arith, ground arith)

  pub copied :
      (py : Python A) (mm : Manager A C) (old new : String) (a : ℕ) (m copy : Module A)
      → has_key cim strings demangle uuid new_cache new mm ≡ false
      → find cim old mm.modules ≡ some a
      → mm.store.modules a ≡ some m
      → unlocked_copy py m ≡ ok copy
      → copy_module cim strings demangle uuid new_cache py old new mm ≡ (
        ok tt,
        record mm {
          store = write mm.store mm.fresh (record copy { name = some new });
          fresh = suc mm.fresh;
          modules = emplace cim new mm.fresh mm.modules;
        },
      )
  unfolding copy_module
  copied py mm old new a m copy h f e c = ground arith

  -- Renaming a module, none of whose inputs holds a Python object, to a key that is not in use:
  -- the old key is gone, the new key leads to a new module, which is an unlocked copy that has the
  -- new key as its name and owns its values, every other key leads where it led, and the modules
  -- that were there are as they were.
  pub find-rename_module :
      (py : Python A) (mm : Manager A C) (old new : String) (a : ℕ) (m : Module A) (k : String)
      (b : ℕ)
      → has_key cim strings demangle uuid new_cache new mm ≡ false
      → find cim old mm.modules ≡ some a
      → mm.store.modules a ≡ some m
      → HoldsNoPython py m
      → b < mm.fresh
      → (mm' : Manager A C) × (rename_module cim strings demangle uuid new_cache py old new mm
          ≡ (ok tt, mm'))
        × (find cim k mm'.modules ≡ (
            if same cim old k
            then none
            else if same cim new k
            then some mm.fresh
            else find cim k mm.modules))
        × (mm'.store.modules mm.fresh
            ≡ some (record (owned_module m) { locked = false; name = some new }))
        × (mm'.store.modules b ≡ mm.store.modules b)
  unfolding rename_module has_key write unlocked_copy unlock
  find-rename_module py mm old new a m k b h f e native lt =
      let copy = record (owned_module m) { locked = false } in
      let step = copied py mm old new a m copy h f e (rw (copy_of-owned py m native) refl) in
      (
        (rename_module cim strings demangle uuid new_cache py old new mm).1,
        ground (arith, step),
        ground (
          arith,
          step,
          find-erase cim old k (emplace cim new mm.fresh mm.modules),
          find-emplace cim new k mm.fresh mm.modules,
        ),
        ground (arith, step),
        ground (arith, step),
      )

  -- The base that is used: a C++ class keeps the one that was added first.
  abbrev pub kept_base : Map Rtti (ModuleBase A) → ModuleBase A → ModuleBase A
  kept_base bases base =
      if base.is_python
      then base
      else (elim (find rtti_order base.type bases) [ none ↦ base | some old ↦ old ])
