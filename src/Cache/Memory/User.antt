-- ===== src/Cache/Memory/User.antt =====
-- UserCache over a module cache in memory.
use plugin_play.Base.{
  ℕ, String, Bool, true, false, ◌≡◌, refl, sym, subst, has, ◌++◌, none, some, List, [], ◌∷◌, arith,
  All, if◌then◌else◌, ==-refl,
}
use plugin_play.Base.Order.{same_refl, IsExact}
use plugin_play.Base.Result.{ok}
use plugin_play.Types.{Rtti, rtti_same}
use plugin_play.Any.{AnyField, Python, Target, make_any_field, by_value, any_cast}
use plugin_play.Fields.ModuleInput
use plugin_play.Fields.ModuleInput.{ModuleInput}
use plugin_play.Fields.ModuleResult as Res
use plugin_play.Fields.ModuleResult.{ModuleResult}
use plugin_play.Module.{ResultMap}
use plugin_play.Cache.ModuleCache
use plugin_play.Cache.Memory.{Heap, Setting}
use plugin_play.Cache.Memory.Table.{IsEquality}
use plugin_play.Cache.Memory.Growth.{NeverTwice}
use plugin_play.Cache.Memory.Client.{
  Call, cache, no_caches, db_at, run, IsCacheable, IsLegal, run_refines,
}
use plugin_play.Cache.Memory.Runs.{replay-append, cache-ok, All-append}

module _ {A : Type 0} (g : Setting A) (print : AnyField A → String) (py : Python A)
    (demangle : Rtti → String) (p : ℕ) where
  wrap_inputs-ok :
      (type : Rtti) (is_lvalue : Bool) (key : A)
      → rtti_same type py.wrapper ≡ false
      → (j : ModuleInput A) × (ModuleCache.wrap_inputs g.cim print py demangle
            (db_at g p)
            type
            is_lvalue
            key
          ≡ ok (("", j) ∷ []))
        × (j.value ≡ make_any_field type by_value key)
  unfolding ModuleCache.wrap_inputs ModuleInput.passes
  wrap_inputs-ok type is_lvalue key h =
      let i = (ModuleInput.set_type_as g.cim print py demangle ModuleInput.empty false type).1 in
      (record i { value = make_any_field type by_value key }, ground arith, refl)

  wrap_results-ok :
      (type : Rtti) (value : A)
      → rtti_same type py.wrapper ≡ false
      → (rv : ResultMap A) × (ModuleCache.wrap_results g.cim print py demangle
            (db_at g p)
            type
            value
          ≡ ok rv)
        × ((t : Target)
            → ModuleCache.unwrap_results g.cim print py demangle (db_at g p) t rv
              ≡ any_cast py (make_any_field type by_value value) t)
  unfolding ModuleCache.wrap_results ModuleCache.unwrap_results
  wrap_results-ok type value h =
      let q : ModuleResult A = record {
        value = some (make_any_field type by_value value);
        desc = none;
        type = some type;
        type_check = some (Res.type_check py type);
      } in
      (("", q) ∷ [], ground arith, λ t. ground (arith, same_refl g.cim ""))

  module _ (alike : AnyField A → AnyField A → Bool) (Fits : AnyField A → Type 0)
      (e : IsEquality g.eq alike Fits) (unique : NeverTwice g.strings g.uuid)
      (exact : IsExact g.pms) where
    key-IsCacheable :
        (type : Rtti) (key : A) (j : ModuleInput A)
        → Fits (make_any_field type by_value key)
        → j.value ≡ make_any_field type by_value key
        → IsCacheable g alike Fits (("", j) ∷ [])
    unfolding make_any_field
    key-IsCacheable type key j fits h =
        ((subst (λ v. (has v ≡ true) × Fits v) (sym h) (refl, fits), tt), (tt, tt))

    module _ (calls : List (Call A)) (legal : All (IsLegal g alike Fits) calls) where
      -- A UserCache is a map: after any calls of cache and clear on module caches in memory,
      -- caching a value for a key returns, and uncache then gives that value, cast to the type
      -- asked for, for the keys that are equal to it, and what it gave before for all others. No
      -- type is PythonWrapper, and the keys can be compared. The comparison of values is
      -- reflexive, symmetric and transitive.
      pub user_uncache-user_cache :
          (kt lt rt : Rtti) (lv lv' : Bool) (key other value : A) (t : Target)
          → rtti_same kt py.wrapper ≡ false
          → rtti_same lt py.wrapper ≡ false
          → rtti_same rt py.wrapper ≡ false
          → Fits (make_any_field kt by_value key)
          → Fits (make_any_field lt by_value other)
          → (after : Heap A) × (ModuleCache.user_cache g.cim print py demangle
                (db_at g p)
                kt
                lv
                key
                rt
                value
                (run g calls no_caches)
              ≡ (ok tt, after))
            × (ModuleCache.user_uncache g.cim print py demangle (db_at g p) after lt lv' other t ≡ (
                if alike (make_any_field kt by_value key) (make_any_field lt by_value other)
                then any_cast py (make_any_field rt by_value value) t
                else ModuleCache.user_uncache g.cim print py demangle
                    (db_at g p)
                    (run g calls no_caches)
                    lt
                    lv'
                    other
                    t))
      unfolding ModuleCache.user_cache ModuleCache.user_uncache
      user_uncache-user_cache kt lt rt lv lv' key other value t nk nl nr fits fits' =
          let (j, wraps, is) = wrap_inputs-ok kt lv key nk in
          let (l, wraps', is') = wrap_inputs-ok lt lv' other nl in
          let (rv, wraps_value, unwraps) = wrap_results-ok rt value nr in
          let good = key-IsCacheable kt key j fits is in
          let good' = key-IsCacheable lt other l fits' is' in
          let longer = calls ++ (cache p (("", j) ∷ []) rv ∷ []) in
          let stores = cache-ok g alike Fits e unique exact calls p (("", j) ∷ []) rv legal good in
          let gives =
            (run_refines g alike Fits e unique exact longer p (("", l) ∷ [])
              (All-append g alike Fits e calls (cache p (("", j) ∷ []) rv) legal good) good').1 in
          let gave =
            (run_refines g alike Fits e unique exact calls p (("", l) ∷ []) legal good').1 in
          let added =
            replay-append g alike Fits e calls p (("", j) ∷ []) rv (λ q qs. none) p
              (("", l) ∷ []) in
          (
            run g longer no_caches,
            rw (wraps, wraps_value) stores,
            ground (arith, wraps', gives, gave, added, unwraps t, ==-refl p, is, is'),
          )
