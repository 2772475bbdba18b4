-- ===== src/Cache/Memory/Runs.antt =====
-- ModulePIMPL::run with module caches in memory.
use plugin_play.Base.{
  ℕ, Bool, true, ◌&&◌, ◌≡◌, refl, sym, ap, ◌∙◌, Option, none, some, List, [], ◌∷◌, ◌++◌, arith, All,
  if◌then◌else◌, ◌==◌, ==-refl, eq_iff,
}
use plugin_play.Base.Order.{IsExact}
use plugin_play.Base.Result.{ok}
use plugin_play.Any.{AnyField}
use plugin_play.Module.{Module, ModuleBase, InputMap, ResultMap, Store}
use plugin_play.Module.Ready.{ready}
use plugin_play.Module.Memo.{is_memoizable}
use plugin_play.Module.World.{World, CacheApi, merged}
use plugin_play.Module.Run.{run as run_module, all_ready}
use plugin_play.Module.Run.Hit.{run_hit, run_miss, locked_store}
use plugin_play.Cache.ModuleCache
use plugin_play.Cache.Memory.{Heap, Setting}
use plugin_play.Cache.Memory.Table.{IsEquality}
use plugin_play.Cache.Memory.Growth.{NeverTwice}
use plugin_play.Cache.Memory.Proxies.{alike_inputs}
use plugin_play.Cache.Memory.Refines.{module_db-insert-view}
use plugin_play.Cache.Memory.Client.{
  Call, cache, clear, no_caches, replay, db_at, run, IsCacheable, IsLegal, run-replay,
  no_caches-IsGood, run_refines,
}

-- The calls that a run makes on its cache.
abbrev pub memory_caches : {A : Type 0} → Setting A → CacheApi A (Heap A)
memory_caches g = record {
  count = λ p h ps. ModuleCache.count (db_at g p) h ps;
  cache = λ p ps rv. ModuleCache.cache (db_at g p) ps rv;
  uncache = λ p h ps. ModuleCache.uncache (db_at g p) h ps;
  clear = λ p. ModuleCache.clear (db_at g p);
}

module _ {A : Type 0} (g : Setting A) (alike : AnyField A → AnyField A → Bool)
    (Fits : AnyField A → Type 0) (e : IsEquality g.eq alike Fits) where
  pub replay-append :
      (calls : List (Call A)) (p : ℕ) (ps : InputMap A) (rv : ResultMap A)
      (f : ℕ → InputMap A → Option (ResultMap A)) (q : ℕ) (qs : InputMap A)
      → replay alike g (calls ++ (cache p ps rv ∷ [])) f q qs
        ≡ (if (p == q) && alike_inputs g alike ps qs then some rv else replay alike g calls f q qs)
  replay-append [] p ps rv f q qs = refl
  replay-append (cache a bs r ∷ calls) p ps rv f q qs = replay-append calls p ps rv _ q qs
  replay-append (clear a ∷ calls) p ps rv f q qs = replay-append calls p ps rv _ q qs

  run-append :
      (calls : List (Call A)) (p : ℕ) (ps : InputMap A) (rv : ResultMap A) (h : Heap A)
      → run g (calls ++ (cache p ps rv ∷ [])) h
        ≡ (ModuleCache.cache (db_at g p) ps rv (run g calls h)).1
  unfolding run
  run-append [] p ps rv h = refl
  run-append (cache a bs r ∷ calls) p ps rv h =
      run-append calls p ps rv (ModuleCache.cache (db_at g a) bs r h).1
  run-append (clear a ∷ calls) p ps rv h =
      run-append calls p ps rv (ModuleCache.clear (db_at g a) h).1

  pub All-append :
      (calls : List (Call A)) (c : Call A)
      → All (IsLegal g alike Fits) calls
      → IsLegal g alike Fits c
      → All (IsLegal g alike Fits) (calls ++ (c ∷ []))
  All-append [] c legal l = (l, tt)
  All-append (d ∷ calls) c (k, legal) l = (k, All-append calls c legal l)

  alike_inputs_refl : (ps : InputMap A) → alike_inputs g alike ps ps ≡ true
  alike_inputs_refl [] = refl
  alike_inputs_refl ((k, i) ∷ ps) =
      ground (arith, eq_iff k k, e.reflexive i.value, alike_inputs_refl ps)

  module _ (unique : NeverTwice g.strings g.uuid) (exact : IsExact g.pms) where
    -- ModuleCache::cache returns
    pub cache-ok :
        (calls : List (Call A)) (p : ℕ) (ps : InputMap A) (rv : ResultMap A)
        → All (IsLegal g alike Fits) calls
        → IsCacheable g alike Fits ps
        → ModuleCache.cache (db_at g p) ps rv (run g calls no_caches)
          ≡ (ok tt, run g (calls ++ (cache p ps rv ∷ [])) no_caches)
    unfolding ModuleCache.cache
    cache-ok calls p ps rv legal (v, sorted) =
        let good =
          (run-replay g alike Fits e unique exact calls no_caches legal
            (no_caches-IsGood g alike Fits e unique exact)).0 in
        let (h', inserts, good2, seen) =
          module_db-insert-view g alike Fits e unique exact p 0 (run g calls no_caches) ps [] rv
            good v sorted in
        inserts
        ∙ ap (λ h. (ok tt, h)) (sym (run-append calls p ps rv no_caches ∙ ap (λ r. r.1) inserts))

    module _ (w : World A (Heap A)) (same_caches : w.caches ≡ memory_caches g) (n a : ℕ)
        (ps : InputMap A) (st : Store A (Heap A)) (m m' : Module A) (base : ModuleBase A)
        (merged_ps : InputMap A) (found : st.modules a ≡ some m) (has_base : m.base ≡ some base)
        (given : all_ready ps ≡ true) (fine : ready w.strings n st a ps ≡ ok true)
        (found' : (locked_store w n a ps st).modules a ≡ some m')
        (merges : merged w n (locked_store w n a ps st) a m' ps ≡ ok merged_ps) (p : ℕ)
        (cached : m'.cache ≡ some p) (memo : is_memoizable n (locked_store w n a ps st) a ≡ ok true)
        (cacheable : IsCacheable g alike Fits merged_ps) (calls : List (Call A))
        (legal : All (IsLegal g alike Fits) calls)
        (history : (locked_store w n a ps st).caches ≡ run g calls no_caches) where
      -- In a run over module caches in memory whose inputs and module are ready and whose inputs
      -- merge, of a memoizable module: where the calls so far have left results for the merged
      -- inputs in the module's cache, run returns these results, locks the modules and changes
      -- nothing else. The merged inputs, and all that were cached, hold values that can be
      -- compared and lie in the order of the map, no uuid is generated twice, and maps of uuids
      -- that the comparator takes for the same are equal. The comparison of values is reflexive,
      -- symmetric and transitive.
      pub run_recalls :
          (rv : ResultMap A)
          → replay alike g calls (λ q qs. none) p merged_ps ≡ some rv
          → run_module w n a ps st ≡ (ok rv, locked_store w n a ps st)
      run_recalls rv there =
          let (counts, gives) =
            run_refines g alike Fits e unique exact calls p merged_ps legal cacheable in
          run_hit w n a ps st m m' base merged_ps found has_base given fine found' merges p cached
            memo (ground arith)
          ∙ ground arith

      -- In a run over module caches in memory whose inputs and module are ready and whose inputs
      -- merge, of a module that is memoizable before and after: where the calls so far have left
      -- no results for the merged inputs in the module's cache, and the algorithm returns and
      -- makes no other calls on the caches than cache and clear, run returns the algorithm's
      -- results and caches them for the merged inputs. Every merged input, also an optional one,
      -- holds a value that can be compared, and they lie in the order of the map; so do all inputs
      -- of the calls of cache. No uuid is generated twice, and maps of uuids that the comparator
      -- takes for the same are equal. The comparison of values is reflexive, symmetric and
      -- transitive.
      pub run_stores :
          (results : ResultMap A) (after : Store A (Heap A)) (calls' : List (Call A))
          → replay alike g calls (λ q qs. none) p merged_ps ≡ none
          → w.algorithms base.algorithm merged_ps m'.submods (locked_store w n a ps st)
            ≡ (ok results, after)
          → is_memoizable n after a ≡ ok true
          → All (IsLegal g alike Fits) calls'
          → after.caches ≡ run g calls' no_caches
          → run_module w n a ps st ≡ (
            ok results,
            record after { caches = run g (calls' ++ (cache p merged_ps results ∷ [])) no_caches },
          )
      run_stores results after calls' absent returns again legal' history' =
          let (counts, gives) =
            run_refines g alike Fits e unique exact calls p merged_ps legal cacheable in
          let longer = calls' ++ (cache p merged_ps results ∷ []) in
          let (counts', gives') =
            run_refines g alike Fits e unique exact longer p merged_ps
              (All-append calls' (cache p merged_ps results) legal' cacheable) cacheable in
          let stores = cache-ok calls' p merged_ps results legal' cacheable in
          run_miss w n a ps st m m' base merged_ps found has_base given fine found' merges p results
            after (run g longer no_caches) cached memo (ground arith) returns again (ground arith)
          ∙ ground (
            arith,
            replay-append calls' p merged_ps results (λ q qs. none) p merged_ps,
            ==-refl p,
            alike_inputs_refl merged_ps,
          )
