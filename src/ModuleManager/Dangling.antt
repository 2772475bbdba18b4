-- ===== src/ModuleManager/Dangling.antt =====
-- Defaults whose module is gone.
use plugin_play.Base.{
  ℕ, suc, ◌<◌, String, concat, false, ◌≡◌, sym, subst, none, some, List, ◌∷◌, arith,
}
use plugin_play.Base.Order.{Order, same, same_refl}
use plugin_play.Base.Map.{find, keys, emplace, find-emplace, find-erase, find_congr}
use plugin_play.Base.Result.{Error, ok, err, out_of_range}
use plugin_play.Types.{Rtti, rtti_order}
use plugin_play.Module.{Module, ModuleBase, SubmoduleRequest, write}
use plugin_play.Any.{Python}
use plugin_play.Module.Setters.{unlocked_copy}
use plugin_play.ModuleManager.{Manager, has_key, at, fill_defaults, rename_module}
use plugin_play.ModuleManager.Keys.{copied}
use plugin_play.ModuleManager.Defaults.{fill_default-err, fill_defaults-err, at-err}

-- what at throws for a key that is not in use
abbrev pub no_module : String → Error
no_module key = out_of_range (concat (concat "ModuleManager has no module with key: '" key) "'")

module _ {A C : Type 0} (cim strings : Order String) (demangle : Rtti → String) (uuid : ℕ → String)
    (new_cache : ℕ → String → C → C) where
  at-no_module :
      (mm : Manager A C) (n : ℕ) (key : String)
      → find cim key mm.modules ≡ none
      → at cim strings demangle uuid new_cache (suc n) key mm ≡ (err (no_module key), mm)
  unfolding at has_key
  at-no_module mm n key gone = ground arith

  -- A module whose first request is open, and of a type whose default is not in use.
  at_dangling :
      (mm : Manager A C) (n : ℕ) (key gone : String) (a : ℕ) (m : Module A) (base : ModuleBase A)
      (k : String) (rest : List String) (r : SubmoduleRequest A) (t : Rtti)
      → find cim key mm.modules ≡ some a
      → mm.store.modules a ≡ some m
      → m.base ≡ some base
      → keys m.submods ≡ k ∷ rest
      → find cim k m.submods ≡ some r
      → r.type ≡ some t
      → r.module_ptr ≡ none
      → find rtti_order t mm.defaults ≡ some gone
      → find cim gone mm.modules ≡ none
      → at cim strings demangle uuid new_cache (suc (suc n)) key mm ≡ (err (no_module gone), mm)
  at_dangling mm n key gone a m base k rest r t hk ha hb hs hf ht hp hd hg =
      let go = at cim strings demangle uuid new_cache (suc n) in
      let first =
        fill_default-err cim strings demangle uuid new_cache mm (suc n) go gone a m k r t
          (no_module gone) ha hf ht hp hd (at-no_module mm n gone hg) in
      let all =
        fill_defaults-err cim strings demangle uuid new_cache mm (suc n) go a k rest
          (no_module gone) first in
      at-err cim strings demangle uuid new_cache mm (suc n) key a m base (no_module gone) hk ha hb (
        subst
          (λ ks.
            fill_defaults cim strings demangle uuid new_cache (suc n) go a ks mm
            ≡ (err (no_module gone), mm))
          (sym hs) all)

  -- After a module that can be copied and is the default for a type is renamed, no module whose first request is open
  -- and of that type can be had any more: at throws std::out_of_range with the old key.
  pub at-rename_module :
      (py : Python A) (mm : Manager A C) (n : ℕ) (old new key : String) (a c : ℕ)
      (moved m copy : Module A) (base : ModuleBase A) (k : String) (rest : List String)
      (r : SubmoduleRequest A) (t : Rtti)
      → has_key cim strings demangle uuid new_cache new mm ≡ false
      → find cim old mm.modules ≡ some a
      → mm.store.modules a ≡ some moved
      → unlocked_copy py moved ≡ ok copy
      → find rtti_order t mm.defaults ≡ some old
      → find cim key mm.modules ≡ some c
      → same cim old key ≡ false
      → c < mm.fresh
      → mm.store.modules c ≡ some m
      → m.base ≡ some base
      → keys m.submods ≡ k ∷ rest
      → find cim k m.submods ≡ some r
      → r.type ≡ some t
      → r.module_ptr ≡ none
      → (mm' : Manager A C) × (rename_module cim strings demangle uuid new_cache py old new mm
          ≡ (ok tt, mm'))
        × (at cim strings demangle uuid new_cache (suc (suc n)) key mm'
            ≡ (err (no_module old), mm'))
  unfolding rename_module has_key write
  at-rename_module py mm n old new key a c moved m copy base k rest r t free there alive made
        default hk other low hc hb hs hf ht hp =
      let mm' = (rename_module cim strings demangle uuid new_cache py old new mm).1 in
      let step =
        copied cim strings demangle uuid new_cache py mm old new a moved copy free there alive
          made in
      let after = emplace cim new mm.fresh mm.modules in
      (
        mm',
        ground (arith, step),
        at_dangling mm' n key old c m base k rest r t
            (ground (
              arith,
              step,
              find-erase cim old key after,
              find-emplace cim new key mm.fresh mm.modules,
              find_congr cim new key mm.modules,
            ))
            (ground (arith, step)) hb hs hf ht hp (ground (arith, step))
            (ground (arith, step, find-erase cim old old after, same_refl cim old)),
      )
