-- ===== src/Cache/Memory/Client.antt =====
-- Sequences of calls on module caches in memory that share their uuids, against functions from
-- inputs to results.
use plugin_play.Base.{
  ℕ, String, Bool, true, ◌&&◌, ◌≡◌, refl, sym, ap, subst, ◌∙◌, Option, none, some, has, List, [],
  ◌∷◌, arith, All, Option-cases, inl, inr, if◌then◌else◌, ◌==◌,
}
use plugin_play.Base.Order.{same}
use plugin_play.Base.Map
use plugin_play.Base.Set
use plugin_play.Base.Result.{ok, out_of_range, or_throw}
use plugin_play.Any.{AnyField}
use plugin_play.Module.{InputMap, ResultMap}
use plugin_play.Cache.Database.{Database}
use plugin_play.Cache.ModuleCache
use plugin_play.Cache.ProxyMapMaker.{ProxyMap}
use plugin_play.Cache.Memory.{Heap, Setting, module_db}
use plugin_play.Cache.Memory.Table.{IsEquality}
use plugin_play.Cache.Memory.Growth.{IsGood, NeverTwice}
use plugin_play.Cache.Memory.Proxies.{alike_inputs, proxied, IsSorted, AllValued}
use plugin_play.Cache.Memory.Refines.{
  view, module_db-count, module_db-at_get, module_db-insert-view, module_db-dump, emptied-IsGood,
  view-emptied,
}

-- A call on the module cache at an address.
pub data Call (A : Type 0) : Type 0 where
  cache : ℕ → InputMap A → ResultMap A → Call A
  clear : ℕ → Call A

module _ {A : Type 0} where
  abbrev pub no_caches : Heap A
  no_caches = record {
    uuids = 0;
    any_values = [];
    any_keys = [];
    inputs = λ p. [];
    results = λ p. [];
  }

  -- The inputs and results that are cached, as a function; a later call wins.
  abbrev pub replay :
      (AnyField A → AnyField A → Bool)
      → Setting A
      → List (Call A)
      → (ℕ → InputMap A → Option (ResultMap A))
      → ℕ
      → InputMap A
      → Option (ResultMap A)
  replay alike g [] f q qs = f q qs
  replay alike g (cache p ps rv ∷ calls) f q qs =
      replay alike g calls
        (λ q qs. if (p == q) && alike_inputs g alike ps qs then some rv else f q qs) q qs
  replay alike g (clear p ∷ calls) f q qs =
      replay alike g calls (λ q qs. if p == q then none else f q qs) q qs

module _ {A : Type 0} (g : Setting A) where
  -- The module cache at `p`
  abbrev pub db_at : ℕ → Option (Database (Heap A) (InputMap A) (ResultMap A))
  db_at p = some (module_db g p)

  unfoldable pub run : List (Call A) → Heap A → Heap A
  unfolding ModuleCache.cache ModuleCache.clear module_db
  run [] h = h
  run (cache p ps rv ∷ calls) h = run calls (ModuleCache.cache (db_at p) ps rv h).1
  run (clear p ∷ calls) h = run calls (ModuleCache.clear (db_at p) h).1

  module _ (alike : AnyField A → AnyField A → Bool) (Fits : AnyField A → Type 0) where
    -- The inputs are those of a map, and each has a value that can be compared.
    abbrev pub IsCacheable : InputMap A → Type 0
    IsCacheable ps = AllValued g alike Fits ps × IsSorted g alike ps

    abbrev pub IsLegal : Call A → Type 0
    IsLegal (cache p ps rv) = IsCacheable ps
    IsLegal (clear p) = Unit

    module _ (e : IsEquality g.eq alike Fits) (unique : NeverTwice g.strings g.uuid)
        (exact : (a b : ProxyMap String) → same g.pms a b ≡ true → a ≡ b) where
      replay_congr :
          (calls : List (Call A)) (f f' : ℕ → InputMap A → Option (ResultMap A))
          → ((q : ℕ) (qs : InputMap A) → f q qs ≡ f' q qs)
          → (q : ℕ) (qs : InputMap A) → replay alike g calls f q qs ≡ replay alike g calls f' q qs
      replay_congr [] f f' h q qs = h q qs
      replay_congr (cache p ps rv ∷ calls) f f' h q qs =
          replay_congr calls _ _
            (λ q qs.
              ap (λ r. if (p == q) && alike_inputs g alike ps qs then some rv else r) (h q qs))
            q qs
      replay_congr (clear p ∷ calls) f f' h q qs =
          replay_congr calls _ _ (λ q qs. ap (λ r. if p == q then none else r) (h q qs)) q qs

      -- ModuleCache::cache
      cache-view :
          (p q : ℕ) (h : Heap A) (ps qs : InputMap A) (rv : ResultMap A)
          → IsGood g alike Fits h
          → IsCacheable ps
          → IsGood g alike Fits (ModuleCache.cache (db_at p) ps rv h).1
            × (view g alike q (ModuleCache.cache (db_at p) ps rv h).1 qs
                ≡ (if (p == q) && alike_inputs g alike ps qs then some rv else view g alike q h qs))
      unfolding ModuleCache.cache
      cache-view p q h ps qs rv good (v, sorted) =
          let (h', run, good', seen) =
            module_db-insert-view g alike Fits e unique exact p q h ps qs rv good v sorted in
          let same_heap : h' ≡ (ModuleCache.cache (db_at p) ps rv h).1 = sym (ap (λ r. r.1) run) in
          subst
            (λ x.
              IsGood g alike Fits x
              × (view g alike q x qs ≡ (
                  if (p == q) && alike_inputs g alike ps qs then some rv else view g alike q h qs)))
            same_heap (good', seen)

      -- ModuleCache::clear
      clear-view :
          (p q : ℕ) (h : Heap A) (qs : InputMap A)
          → IsGood g alike Fits h
          → IsGood g alike Fits (ModuleCache.clear (db_at p) h).1
            × (view g alike q (ModuleCache.clear (db_at p) h).1 qs
                ≡ (if p == q then none else view g alike q h qs))
      unfolding ModuleCache.clear
      clear-view p q h qs good =
          let same_heap = sym (ap (λ r. r.1) (module_db-dump g alike Fits e unique exact p h)) in
          subst
            (λ x.
              IsGood g alike Fits x
              × (view g alike q x qs ≡ (if p == q then none else view g alike q h qs)))
            same_heap
            (
              emptied-IsGood g alike Fits e unique exact p h good,
              view-emptied g alike Fits e unique exact p q h qs,
            )

      pub run-replay :
          (calls : List (Call A)) (h : Heap A)
          → All IsLegal calls
          → IsGood g alike Fits h
          → IsGood g alike Fits (run calls h)
            × ((q : ℕ) (qs : InputMap A)
                → view g alike q (run calls h) qs
                  ≡ replay alike g calls (λ q qs. view g alike q h qs) q qs)
      unfolding run
      run-replay [] h legal good = (good, λ q qs. refl)
      run-replay (cache p ps rv ∷ calls) h (legal, rest) good =
          let (good', seen) =
            run-replay calls (ModuleCache.cache (db_at p) ps rv h).1 rest
              (cache-view p 0 h ps [] rv good legal).0 in
          (
            good',
            λ q qs.
                seen q qs
                ∙ replay_congr calls _ _ (λ q qs. (cache-view p q h ps qs rv good legal).1) q qs,
          )
      run-replay (clear p ∷ calls) h (legal, rest) good =
          let (good', seen) =
            run-replay calls (ModuleCache.clear (db_at p) h).1 rest (clear-view p 0 h [] good).0 in
          (
            good',
            λ q qs. seen q qs ∙ replay_congr calls _ _ (λ q qs. (clear-view p q h qs good).1) q qs,
          )

      pub no_caches-IsGood : IsGood g alike Fits no_caches
      unfolding Set.member
      no_caches-IsGood = record { known = tt; fresh = λ n lt. refl; results = λ p. tt }

      no_caches-view : (q : ℕ) (qs : InputMap A) → view g alike q no_caches qs ≡ none
      unfolding Map.find
      no_caches-view q qs = elim (Option-cases (proxied g alike no_caches qs)) [
        | inl n ↦ ground arith
        | inr (pm, t) ↦ ground arith
      ]

      -- What a cache holds after any calls
      view-run :
          (calls : List (Call A)) (q : ℕ) (qs : InputMap A)
          → All IsLegal calls
          → view g alike q (run calls no_caches) qs ≡ replay alike g calls (λ q qs. none) q qs
      view-run calls q qs legal =
          (run-replay calls no_caches legal no_caches-IsGood).1 q qs
          ∙ replay_congr calls _ _ no_caches-view q qs

      -- After any calls of cache and clear on new module caches in memory, which share their
      -- uuids, a cache counts inputs exactly if results were cached for the same inputs in it and
      -- no clear of it came since, and uncache gives the last such results, else it throws
      -- std::out_of_range. Inputs are the same if they have the same keys and equal values; all
      -- inputs hold values that can be compared and lie in the order of the map, no uuid is
      -- generated twice, and maps of uuids that the comparator takes for the same are equal. The
      -- comparison of values is reflexive, symmetric and transitive.
      pub run_refines :
          (calls : List (Call A)) (q : ℕ) (qs : InputMap A)
          → All IsLegal calls
          → IsCacheable qs
          → (ModuleCache.count (db_at q) (run calls no_caches) qs
              ≡ ok (has (replay alike g calls (λ q qs. none) q qs)))
            × (ModuleCache.uncache (db_at q) (run calls no_caches) qs
                ≡ or_throw
                    (replay alike g calls (λ q qs. none) q qs)
                    (out_of_range "No cached results"))
      unfolding ModuleCache.count ModuleCache.uncache
      run_refines calls q qs legal (v, sorted) =
          let h = run calls no_caches in
          let good = (run-replay calls no_caches legal no_caches-IsGood).0 in
          let counts = module_db-count g alike Fits e unique exact q h qs good v sorted in
          let seen = view-run calls q qs legal in
          elim (Option-cases (view g alike q h qs)) [
            | inl n ↦ (ground arith, ground arith)
            | inr (rv, t) ↦ (
              ground arith,
              ground
                  (arith, module_db-at_get g alike Fits e unique exact q h qs rv good v sorted t),
            )
          ]
