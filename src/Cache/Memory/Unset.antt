-- ===== src/Cache/Memory/Unset.antt =====
-- Inputs that hold no value.
use plugin_play.Base.{
  All, List, ℕ, false, ◌&&◌, ◌≡◌, has, Bool, true, [], ◌∷◌, arith, inl, inr, Bool-cases,
  Option-cases,
}
use plugin_play.Base.Result.{err, terminated}
use plugin_play.Fields.ModuleInput.{ModuleInput}
use plugin_play.Module.{InputMap, ResultMap}
use plugin_play.Cache.TypeEraser.{type_eraser, input_any}
use plugin_play.Cache.ProxyMapMaker.{uuid_count, uuid_insert, insert_all}
use plugin_play.Cache.ModuleCache
use plugin_play.Cache.Memory.{Heap, Setting, input2uuid, next_uuid, module_db}
use plugin_play.Cache.Memory.Client.{
  Call, no_caches, run, run-replay, no_caches-IsGood, IsLegal, db_at,
}
use plugin_play.Cache.Memory.Table.{IsEquality}
use plugin_play.Cache.Memory.Growth.{NeverTwice, IsGood, uuid_insert-Grows}
use plugin_play.Base.Order.{IsExact}
use plugin_play.Base.Map.{AllValues}
use plugin_play.Any.{AnyField}

module _ {A : Type 0} (g : Setting A) where
  -- Every input holds a value.
  abbrev pub all_set : InputMap A → Bool
  all_set [] = true
  all_set ((k, i) ∷ ps) = has i.value && all_set ps

  uuid_count-unset :
      (h : Heap A) (i : ModuleInput A)
      → has i.value ≡ false
      → uuid_count (input2uuid g) h i ≡ err terminated
  unfolding uuid_count type_eraser input_any
  uuid_count-unset h i n = elim (Option-cases i.value) [
    | inl e ↦ ground arith
    | inr (f, e) ↦ absurd (ground arith)
  ]

  module _ (alike : AnyField A → AnyField A → Bool) (Fits : AnyField A → Type 0)
      (e : IsEquality g.eq alike Fits) (unique : NeverTwice g.strings g.uuid) where
    insert_all-unset :
        (ps : InputMap A) (h : Heap A)
        → IsGood g alike Fits h
        → AllValues (λ i. Fits i.value) ps
        → all_set ps ≡ false
        → (insert_all g.cim (input2uuid g) (next_uuid g.uuid) ps h).0 ≡ err terminated
    unfolding insert_all uuid_insert
    insert_all-unset [] h good fits n = absurd cc
    insert_all-unset ((k, i) ∷ ps) h good (fit, fits) n = elim (Bool-cases (has i.value)) [
      | inr e ↦ ground (arith, uuid_count-unset h i e)
      | inl s ↦
          let (h1, run, good1, grows, there) =
            uuid_insert-Grows g alike Fits e unique h i good (s, fit) in
          ground (arith, insert_all-unset ps h1 good1 fits (ground arith))
    ]

    -- After any calls on new module caches in memory, caching results for inputs of which one
    -- holds no value ends the program: the exception leaves a noexcept function. The values that
    -- are held can be compared, no uuid is generated twice, and maps of uuids that the comparator
    -- takes for the same are equal. The comparison of values is reflexive, symmetric and
    -- transitive.
    pub cache-unset :
        (exact : IsExact g.pms) (calls : List (Call A)) (p : ℕ) (ps : InputMap A) (rv : ResultMap A)
        → All (IsLegal g alike Fits) calls
        → AllValues (λ i. Fits i.value) ps
        → all_set ps ≡ false
        → (ModuleCache.cache (db_at g p) ps rv (run g calls no_caches)).0 ≡ err terminated
    unfolding ModuleCache.cache module_db
    cache-unset exact calls p ps rv legal fits n =
        let h = run g calls no_caches in
        let good =
          (run-replay g alike Fits e unique exact calls no_caches legal
            (no_caches-IsGood g alike Fits e unique exact)).0 in
        ground (arith, insert_all-unset ps h good fits n)
