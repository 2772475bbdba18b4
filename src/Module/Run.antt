-- ===== src/Module/Run.antt =====
-- ModulePIMPL::run and is_cached (cxx/src/pluginplay/module/detail_/module_pimpl.ipp). The timer
-- is left out: it changes no result.
pub mod Hit
pub mod Refuses
use plugin_play.Base.{
  ℕ, String, Bool, true, false, ◌&&◌, not, Option, none, some, List, [], ◌∷◌, ◌==◌, if◌then◌else◌,
}
use plugin_play.Base.Order.{Order}
use plugin_play.Base.Map.{Map, values}
use plugin_play.Base.Result.{runtime_error, guard}
use plugin_play.Base.Exec.{Exec, pure, throw, reads, ◌>>=◌, ◌>>◌}
use plugin_play.Types.{Rtti}
use plugin_play.Any.{AnyField, Python}
use plugin_play.Fields.ModuleInput.{ModuleInput, is_ready}
use plugin_play.Module.{
  Module, ModuleBase, InputMap, ResultMap, SubmoduleMap, Store, assert_mod, deref,
}
use plugin_play.Module.Ready.{ready}
use plugin_play.Module.Report.{print_not_ready}
use plugin_play.Module.Lock.{lock}
use plugin_play.Module.Memo.{is_memoizable}
use plugin_play.Module.World.{World, merged, counts}

abbrev pub all_ready : {A : Type 0} → InputMap A → Bool
all_ready [] = true
all_ready ((k, v) ∷ ps) = is_ready v && all_ready ps

module _ {A C : Type 0} where
  -- A call of a cache through its pointer.
  unfoldable pub with_cache : {B : Type 0} → Exec C B → Exec (Store A C) B
  with_cache call st = ((call st.caches).0, record st { caches = (call st.caches).1 })

module _ {A C : Type 0} (w : World A C) where
  -- ModulePIMPL::reset_cache
  unfoldable pub reset_cache : ℕ → Exec (Store A C) (Unit {0})
  unfolding with_cache
  reset_cache a = do
    m ← reads (λ st. deref st a)
    elim m.cache [ none ↦ pure tt | some p ↦ with_cache (w.caches.clear p) ]

  -- ModulePIMPL::reset_internal_cache
  unfoldable pub reset_internal_cache : ℕ → Exec (Store A C) (Unit {0})
  unfolding with_cache
  reset_internal_cache a = do
    m ← reads (λ st. deref st a)
    base ← reads (λ st. assert_mod m)
    elim base.cache [ none ↦ pure tt | some p ↦ with_cache (w.caches.clear p) ]

  -- the part of run that follows the merge: `base` is m_base_, `cache` is m_cache_
  unfoldable pub run_merged :
      ℕ → ℕ → ModuleBase A → Option ℕ → SubmoduleMap A → InputMap A → Exec (Store A C) (ResultMap A)
  unfolding with_cache counts is_memoizable
  run_merged n a base cache submods ps = do
    memoizable ← reads (λ st. is_memoizable n st a)
    hit ← if memoizable then reads (λ st. counts w cache st ps) else pure false
    elim cache [
      | none ↦ w.algorithms base.algorithm ps submods
      | some p ↦ if hit then reads (λ st. w.caches.uncache p st.caches ps) else (do
        rv ← w.algorithms base.algorithm ps submods
        again ← reads (λ st. is_memoizable n st a)
        let store =
            with_cache (w.caches.cache p ps rv) >> reads (λ st. w.caches.uncache p st.caches ps)
        if again then store else pure rv)
    ]

  -- ModulePIMPL::run
  unfoldable pub run : ℕ → ℕ → InputMap A → Exec (Store A C) (ResultMap A)
  unfolding run_merged ready print_not_ready lock merged
  run n a ps = do
    m ← reads (λ st. deref st a)
    base ← reads (λ st. assert_mod m)
    reads (λ st. guard (all_ready ps) (runtime_error "Inputs are not ready"))
    fine ← reads (λ st. ready w.strings n st a ps)
    if fine then pure tt else (do
      why ← reads (λ st. print_not_ready w.cim w.strings n st a ps "")
      throw (runtime_error why))
    lock w.strings n a
    m ← reads (λ st. deref st a)
    merged_ps ← reads (λ st. merged w n st a m ps)
    run_merged n a base m.cache m.submods merged_ps
