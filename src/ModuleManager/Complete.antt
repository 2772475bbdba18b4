-- ===== src/ModuleManager/Complete.antt =====
-- `at` on a module whose submodule requests are all ready.
use plugin_play.Base.{ℕ, suc, String, true, ◌≡◌, refl, some, List, [], ◌∷◌, arith, All}
use plugin_play.Base.Order.{Order}
use plugin_play.Base.Map.{find, keys}
use plugin_play.Base.Result.{ok}
use plugin_play.Types.{Rtti}
use plugin_play.Module.{Module, ModuleBase, SubmoduleRequest, Store}
use plugin_play.Module.Ready.{request_ready, ready}
use plugin_play.ModuleManager.{Manager, Managed, has_key, at, fill_default, fill_defaults}

module _ {A C : Type 0} (cim strings : Order String) (demangle : Rtti → String) (uuid : ℕ → String)
    (new_cache : ℕ → String → C → C) where
  -- The request of the module under the key has a type and is ready.
  abbrev pub IsFilled : ℕ → Store A C → Module A → String → Type 0
  IsFilled n st m k =
      (r : SubmoduleRequest A) × (t : Rtti) × (find cim k m.submods ≡ some r)
      × (r.type ≡ some t)
      × (request_ready strings (λ b inps. ready strings n st b inps) r ≡ ok true)

  fill_default-IsFilled :
      (mm : Manager A C) (n a : ℕ) (go : String → Managed A C ℕ) (m : Module A) (k : String)
      → mm.store.modules a ≡ some m
      → IsFilled n mm.store m k
      → fill_default cim strings demangle uuid new_cache n go a k mm ≡ (ok tt, mm)
  unfolding fill_default
  fill_default-IsFilled mm n a go m k e (r, t, f, ty, fine) = ground arith

  fill_defaults-IsFilled :
      (mm : Manager A C) (n a : ℕ) (go : String → Managed A C ℕ) (m : Module A)
      (submods : List String)
      → mm.store.modules a ≡ some m
      → All (IsFilled n mm.store m) submods
      → fill_defaults cim strings demangle uuid new_cache n go a submods mm ≡ (ok tt, mm)
  unfolding fill_defaults
  fill_defaults-IsFilled mm n a go m [] e h = refl
  fill_defaults-IsFilled mm n a go m (k ∷ submods) e (h, hs) = ground (
    arith,
    fill_default-IsFilled mm n a go m k e h,
    fill_defaults-IsFilled mm n a go m submods e hs,
  )

  -- Where the key leads to a module that has a base, and each of its submodule requests has a
  -- type and is ready with one unit of fuel less, at returns the module and changes nothing,
  -- whatever the defaults are.
  pub at-IsFilled :
      (mm : Manager A C) (n a : ℕ) (key : String) (m : Module A) (base : ModuleBase A)
      → find cim key mm.modules ≡ some a
      → mm.store.modules a ≡ some m
      → m.base ≡ some base
      → All (IsFilled n mm.store m) (keys m.submods)
      → at cim strings demangle uuid new_cache (suc n) key mm ≡ (ok a, mm)
  unfolding at has_key
  at-IsFilled mm n a key m base e f b h = ground (
    arith,
    fill_defaults-IsFilled mm n a (λ k. at cim strings demangle uuid new_cache n k) m
        (keys m.submods) f h,
  )
