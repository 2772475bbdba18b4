-- ===== src/Module/Run/Hit.antt =====
-- What a run returns, and when the developer's algorithm is called.
use plugin_play.Base.{ℕ, true, false, ◌≡◌, Option-cases, inl, inr, some, arith, ==-refl}
use plugin_play.Base.Result.{ok}
use plugin_play.Module.{Module, ModuleBase, InputMap, ResultMap, Store}
use plugin_play.Module.Ready.{ready}
use plugin_play.Module.Lock.{lock}
use plugin_play.Module.Lock.Succeeds.{ready-lock}
use plugin_play.Module.Memo.{is_memoizable}
use plugin_play.Module.World.{World, merged, counts}
use plugin_play.Module.Run.{run, run_merged, with_cache, all_ready}

module _ {A C : Type 0} (w : World A C) (n a : ℕ) (ps : InputMap A) (st : Store A C) where
  -- The store after the locks of the run.
  abbrev pub locked_store : Store A C
  locked_store = (lock w.strings n a st).1

  module _ (m m' : Module A) (base : ModuleBase A) (merged_ps : InputMap A)
      (found : st.modules a ≡ some m) (has_base : m.base ≡ some base) (given : all_ready ps ≡ true)
      (fine : ready w.strings n st a ps ≡ ok true) (found' : locked_store.modules a ≡ some m')
      (merges : merged w n locked_store a m' ps ≡ ok merged_ps) where
    run_locked : run w n a ps st ≡ run_merged w n a base m'.cache m'.submods merged_ps locked_store
    unfolding run
    run_locked = ground (arith, ready-lock w.strings n a ps st fine)

    -- In a run whose inputs and module are ready and whose inputs merge, of a memoizable module
    -- with a cache that counts the merged inputs, run returns what the cache gives, locks the
    -- modules and changes nothing else.
    pub run_hit :
        (p : ℕ)
        → m'.cache ≡ some p
        → is_memoizable n locked_store a ≡ ok true
        → w.caches.count p locked_store.caches merged_ps ≡ ok true
        → run w n a ps st ≡ (w.caches.uncache p locked_store.caches merged_ps, locked_store)
    unfolding run_merged counts
    run_hit p cached memo hit = ground (arith, run_locked)

    -- In a run whose inputs and module are ready and whose inputs merge, of a module that is
    -- memoizable neither before nor after the algorithm, the algorithm is called once, in the
    -- store with the locks, and its results are returned: no cache is read or written.
    pub run_not_memoized :
        (results : ResultMap A) (after : Store A C)
        → w.algorithms base.algorithm merged_ps m'.submods locked_store ≡ (ok results, after)
        → is_memoizable n locked_store a ≡ ok false
        → is_memoizable n after a ≡ ok false
        → run w n a ps st ≡ (ok results, after)
    unfolding run_merged counts
    run_not_memoized results after returns never still = elim (Option-cases m'.cache) [
      | inl e ↦ ground (arith, run_locked)
      | inr (p, e) ↦ ground (arith, run_locked)
    ]

    -- In a run whose inputs and module are ready and whose inputs merge, of a module that is
    -- memoizable before and after, a result that the cache does not hold comes from the
    -- algorithm, where it returns, and is stored in the cache that the module had when the run
    -- began, where that returns; the run returns what the cache then gives.
    pub run_miss :
        (p : ℕ) (results : ResultMap A) (after : Store A C) (c : C)
        → m'.cache ≡ some p
        → is_memoizable n locked_store a ≡ ok true
        → w.caches.count p locked_store.caches merged_ps ≡ ok false
        → w.algorithms base.algorithm merged_ps m'.submods locked_store ≡ (ok results, after)
        → is_memoizable n after a ≡ ok true
        → w.caches.cache p merged_ps results after.caches ≡ (ok tt, c)
        → run w n a ps st ≡ (w.caches.uncache p c merged_ps, record after { caches = c })
    unfolding run_merged counts with_cache
    run_miss p results after c cached memo miss returns again stores =
        ground (arith, run_locked, ==-refl p)
