-- ===== src/Tests/CachedRuns.antt =====
-- The theorems on runs with caches in memory, at a concrete world.
use plugin_play.Base.{ℕ, true, false, ◌≡◌, refl, some, List, [], ◌∷◌, if◌then◌else◌}
use plugin_play.Base.TextOrder.{text_order, less_text}
use plugin_play.Base.Order.{same, less_nat}
use plugin_play.Types.{rtti_same}
use plugin_play.Any.{storing_python_object, make_any_field, by_value, any_cast, Target, Mode}
use plugin_play.Base.Result.{ok}
use plugin_play.Fields.ModuleInput.{passes}
use plugin_play.Module.{Module, InputMap, Store}
use plugin_play.Module.Ready.{ready}
use plugin_play.Module.Lock.{lock}
use plugin_play.Module.Memo.{is_memoizable}
use plugin_play.Module.World.{World, merged}
use plugin_play.Module.Run.{run as run_module}
use plugin_play.Module.Run.Hit.{locked_store}
use plugin_play.Any.Equality.{IsNative}
use plugin_play.Cache.Memory.{Heap}
use plugin_play.Any.Equality.{any_alike}
use plugin_play.Cache.Memory.Equality.{any_eq-IsEquality}
use plugin_play.Cache.Memory.Client.{Call, cache, no_caches, run, db_at}
use plugin_play.Cache.ModuleCache
use plugin_play.Cache.Memory.User.{user_uncache-user_cache}
use plugin_play.Cache.Memory.Runs.{memory_caches, run_recalls, run_stores}
use plugin_play.Tests.Data.{
  leaf, py, numbers, numbers_laws, print, demangle, area_base, int_type, float_type,
}
use plugin_play.Tests.Runs.{or_empty}
use plugin_play.Tests.Caches.{setting, setting-IsExact, no_results, Cacheable, seven-IsNative}
use plugin_play.Tests.Strokes.{strokes_apart}

abbrev world : World ℕ (Heap ℕ)
world = record {
  cim = text_order;
  strings = text_order;
  print = print;
  py = py;
  demangle = demangle;
  uuids_type = record { index = 5; name = "map" };
  wrap_uuids = λ u. 0;
  caches = memory_caches setting;
  algorithms = λ n ps submods st. (ok no_results, st);
}

-- A module that has the cache at 4.
abbrev cached_leaf : Module ℕ
cached_leaf = record leaf { cache = some 4 }

abbrev merged_inputs : InputMap ℕ
merged_inputs = or_empty (
    merged world 2
      (record { modules = λ b. some (record cached_leaf { locked = true }); caches = no_caches }) 0
      (record cached_leaf { locked = true }) [])

abbrev calls : List (Call ℕ)
calls = cache 4 merged_inputs no_results ∷ []

abbrev float_target : Target
float_target = record { clean = float_type; mode = Mode.value }

abbrev store : List (Call ℕ) → Store ℕ (Heap ℕ)
store calls = record { modules = λ b. some cached_leaf; caches = run setting calls no_caches }

merged_inputs-IsCacheable : Cacheable merged_inputs
unfolding merged less_text less_nat storing_python_object rtti_same passes same
merged_inputs-IsCacheable = (((refl, refl), ((refl, seven-IsNative), tt)), ((refl, tt), (tt, tt)))

run_recalls_example :
    run_module world 2 0 [] (store calls) ≡ (ok no_results, locked_store world 2 0 [] (store calls))
unfolding ready lock merged is_memoizable passes same less_text less_nat numbers
run_recalls_example =
    run_recalls setting (any_alike py numbers) (IsNative py)
      (any_eq-IsEquality py numbers numbers_laws) strokes_apart setting-IsExact world refl 2 0 []
      (store calls) cached_leaf (record cached_leaf { locked = true }) area_base merged_inputs refl
      refl refl refl refl refl 4 refl refl merged_inputs-IsCacheable calls
      (merged_inputs-IsCacheable, tt) refl no_results refl

run_stores_example : run_module world 2 0 [] (store []) ≡ (
  ok no_results,
  record (locked_store world 2 0 [] (store [])) { caches = run setting calls no_caches },
)
unfolding ready lock merged is_memoizable passes
run_stores_example =
    run_stores setting (any_alike py numbers) (IsNative py)
      (any_eq-IsEquality py numbers numbers_laws) strokes_apart setting-IsExact world refl 2 0 []
      (store []) cached_leaf (record cached_leaf { locked = true }) area_base merged_inputs refl
      refl refl refl refl refl 4 refl refl merged_inputs-IsCacheable [] tt refl no_results
      (locked_store world 2 0 [] (store [])) [] refl refl refl tt refl

user_uncache-user_cache_example :
    (after : Heap ℕ) × (ModuleCache.user_cache text_order print py demangle
        (db_at setting 4)
        int_type
        false
        3
        float_type
        5
        (run setting calls no_caches)
      ≡ (ok tt, after))
    × (ModuleCache.user_uncache text_order print py demangle
          (db_at setting 4)
          after
          int_type
          true
          3
          float_target
        ≡ (if any_alike py numbers
              (make_any_field int_type by_value 3)
              (make_any_field int_type by_value 3)
            then any_cast py (make_any_field float_type by_value 5) float_target
            else ModuleCache.user_uncache text_order print py demangle
                (db_at setting 4)
                (run setting calls no_caches)
                int_type
                true
                3
                float_target))
unfolding rtti_same storing_python_object make_any_field
user_uncache-user_cache_example =
    user_uncache-user_cache setting print py demangle 4 (any_alike py numbers) (IsNative py)
      (any_eq-IsEquality py numbers numbers_laws) strokes_apart setting-IsExact calls
      (merged_inputs-IsCacheable, tt) int_type int_type float_type false true 3 3 5 float_target
      refl refl refl refl refl
