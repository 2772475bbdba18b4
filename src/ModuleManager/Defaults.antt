-- ===== src/ModuleManager/Defaults.antt =====
-- Default modules, which `at` gives to submodule requests that are not ready.
use plugin_play.Base.{ℕ, zero, suc, String, ◌≡◌, refl, sym, subst, none, some, List, ◌∷◌, arith}
use plugin_play.Base.Order.{Order}
use plugin_play.Base.Map.{find, keys}
use plugin_play.Base.Result.{Error, err, overflow}
use plugin_play.Types.{Rtti, rtti_order}
use plugin_play.Module.{Module, ModuleBase, SubmoduleRequest}
use plugin_play.Module.Ready.{request_ready}
use plugin_play.ModuleManager.{Manager, Managed, has_key, at, fill_defaults, fill_default}

module _ {A C : Type 0} (cim strings : Order String) (demangle : Rtti → String) (uuid : ℕ → String)
    (new_cache : ℕ → String → C → C) where
  pub fill_default-err :
      (mm : Manager A C) (n : ℕ) (go : String → Managed A C ℕ) (key : String) (a : ℕ) (m : Module A)
      (k : String) (r : SubmoduleRequest A) (t : Rtti) (x : Error)
      → mm.store.modules a ≡ some m
      → find cim k m.submods ≡ some r
      → r.type ≡ some t
      → r.module_ptr ≡ none
      → find rtti_order t mm.defaults ≡ some key
      → go key mm ≡ (err x, mm)
      → fill_default cim strings demangle uuid new_cache n go a k mm ≡ (err x, mm)
  unfolding fill_default request_ready
  fill_default-err mm n go key a m k r t x ha hf ht hp hd hg = ground arith

  pub fill_defaults-err :
      (mm : Manager A C) (n : ℕ) (go : String → Managed A C ℕ) (a : ℕ) (k : String)
      (rest : List String) (x : Error)
      → fill_default cim strings demangle uuid new_cache n go a k mm ≡ (err x, mm)
      → fill_defaults cim strings demangle uuid new_cache n go a (k ∷ rest) mm ≡ (err x, mm)
  unfolding fill_defaults
  fill_defaults-err mm n go a k rest x h = ground arith

  pub at-err :
      (mm : Manager A C) (n : ℕ) (key : String) (a : ℕ) (m : Module A) (base : ModuleBase A)
      (x : Error)
      → find cim key mm.modules ≡ some a
      → mm.store.modules a ≡ some m
      → m.base ≡ some base
      → fill_defaults cim strings demangle uuid new_cache n
          (λ k. at cim strings demangle uuid new_cache n k)
          a
          (keys m.submods)
          mm
        ≡ (err x, mm)
      → at cim strings demangle uuid new_cache (suc n) key mm ≡ (err x, mm)
  unfolding at has_key
  at-err mm n key a m base x hk ha hb h = ground arith

  at-zero :
      (mm : Manager A C) (key : String)
      → at cim strings demangle uuid new_cache zero key mm ≡ (err overflow, mm)
  unfolding at
  at-zero mm key = refl

  -- A module whose first submodule request is open, and whose own key is the default for the
  -- requested type, is never found: at calls itself with the same key, whatever fuel it has.
  pub at_self_default :
      (mm : Manager A C) (key : String) (a : ℕ) (m : Module A) (base : ModuleBase A) (k : String)
      (rest : List String) (r : SubmoduleRequest A) (t : Rtti)
      → find cim key mm.modules ≡ some a
      → mm.store.modules a ≡ some m
      → m.base ≡ some base
      → keys m.submods ≡ k ∷ rest
      → find cim k m.submods ≡ some r
      → r.type ≡ some t
      → r.module_ptr ≡ none
      → find rtti_order t mm.defaults ≡ some key
      → (n : ℕ) → at cim strings demangle uuid new_cache n key mm ≡ (err overflow, mm)
  at_self_default mm key a m base k rest r t hk ha hb hs hf ht hp hd zero = at-zero mm key
  at_self_default mm key a m base k rest r t hk ha hb hs hf ht hp hd (suc n) =
      let go = at cim strings demangle uuid new_cache n in
      let same = at_self_default mm key a m base k rest r t hk ha hb hs hf ht hp hd n in
      let first = fill_default-err mm n go key a m k r t overflow ha hf ht hp hd same in
      let all = fill_defaults-err mm n go a k rest overflow first in
      at-err mm n key a m base overflow hk ha hb (
        subst
          (λ ks.
            fill_defaults cim strings demangle uuid new_cache n go a ks mm ≡ (err overflow, mm))
          (sym hs) all)
