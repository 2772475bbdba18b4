-- ===== src/Tests/Caches.antt =====
-- The theorems on caches, at concrete caches.
use plugin_play.Base.{ℕ, String, true, ◌≡◌, refl, none, some, has, List, [], ◌∷◌, arith, All}
use plugin_play.Base.Lens.{Lens}
use plugin_play.Base.Map
use plugin_play.Base.Map.{Map}
use plugin_play.Base.Order.{same, IsExact}
use plugin_play.Base.TextOrder.{text_order, text_order-IsExact, less_text}
use plugin_play.Base.Lexicographic.{pair_order, list_order, pair_order-IsExact, list_order-IsExact}
use plugin_play.Base.Result.{ok, err, fault, terminated, or_throw, out_of_range}
use plugin_play.Base.Order.{less_nat}
use plugin_play.Types.{rtti_same}
use plugin_play.Any.{any_eq, storing_python_object}
use plugin_play.Module.{InputMap, ResultMap}
use plugin_play.Cache.Database.{owning}
use plugin_play.Cache.ModuleCache
use plugin_play.Cache.RocksDb
use plugin_play.Cache.RocksDb.{RawDb}
use plugin_play.Cache.RocksDb.RoundTrip.{IsReliable, IsFree, at-insert_long}
use plugin_play.Cache.Memory.{Setting}
use plugin_play.Any.Equality.{any_alike}
use plugin_play.Cache.Memory.Equality.{any_eq-IsEquality}
use plugin_play.Cache.Memory.Client.{
  Call, cache, clear, no_caches, IsLegal, IsCacheable, replay, db_at, run, run_refines,
}
use plugin_play.Cache.Memory.Unset.{cache-unset}
use plugin_play.Tests.Data.{py, numbers, numbers_laws, seven, bound_input, open_input}
use plugin_play.Any.Equality.{IsNative}
use plugin_play.Tests.Strokes.{strokes, strokes_apart, tallies_apart, tallies, behind_differs}

abbrev pub setting : Setting ℕ
setting = record {
  cim = text_order;
  strings = text_order;
  pms = list_order (pair_order text_order text_order);
  eq = any_eq py numbers;
  uuid = strokes;
  as_input = λ x. err fault;
  as_result = λ x. err fault;
}

pub setting-IsExact : IsExact (list_order (pair_order text_order text_order))
setting-IsExact =
    list_order-IsExact (pair_order text_order text_order)
      (pair_order-IsExact text_order text_order text_order-IsExact text_order-IsExact)

-- Inputs of one value, and inputs of two; one of these is not set in the last.
abbrev pub one_input : InputMap ℕ
one_input = ("side", bound_input) ∷ []

abbrev two_inputs : InputMap ℕ
two_inputs = ("height", bound_input) ∷ ("side", bound_input) ∷ []

abbrev unset_inputs : InputMap ℕ
unset_inputs = ("height", bound_input) ∷ ("side", open_input) ∷ []

abbrev pub no_results : ResultMap ℕ
no_results = []

-- Two caches, one of which is cleared.
abbrev calls : List (Call ℕ)
calls =
    cache 0 one_input no_results
    ∷ cache 1 two_inputs no_results
    ∷ cache 0 two_inputs no_results
    ∷ clear 0
    ∷ cache 0 one_input no_results
    ∷ []

pub seven-IsNative : IsNative py seven
unfolding storing_python_object rtti_same
seven-IsNative = refl

abbrev pub Cacheable : InputMap ℕ → Type 0
Cacheable = IsCacheable setting (any_alike py numbers) (IsNative py)

pub one_input-IsCacheable : Cacheable one_input
one_input-IsCacheable = (((refl, seven-IsNative), tt), (tt, tt))

two_inputs-IsCacheable : Cacheable two_inputs
unfolding less_text less_nat
two_inputs-IsCacheable =
    (((refl, seven-IsNative), ((refl, seven-IsNative), tt)), ((refl, tt), (tt, tt)))

calls-IsLegal : All (IsLegal setting (any_alike py numbers) (IsNative py)) calls
calls-IsLegal = (
  one_input-IsCacheable,
  (two_inputs-IsCacheable, (two_inputs-IsCacheable, (tt, (one_input-IsCacheable, tt)))),
)

run_refines_example :
    (ModuleCache.count (db_at setting 0) (run setting calls no_caches) one_input
      ≡ ok (has (replay (any_alike py numbers) setting calls (λ q qs. none) 0 one_input)))
    × (ModuleCache.uncache (db_at setting 0) (run setting calls no_caches) one_input
        ≡ or_throw
            (replay (any_alike py numbers) setting calls (λ q qs. none) 0 one_input)
            (out_of_range "No cached results"))
run_refines_example =
    run_refines setting (any_alike py numbers) (IsNative py)
      (any_eq-IsEquality py numbers numbers_laws) strokes_apart setting-IsExact calls 0 one_input
      calls-IsLegal one_input-IsCacheable

cache-unset_example :
    (ModuleCache.cache (db_at setting 0) unset_inputs no_results (run setting calls no_caches)).0
    ≡ err terminated
cache-unset_example =
    cache-unset setting (any_alike py numbers) (IsNative py)
      (any_eq-IsEquality py numbers numbers_laws) strokes_apart setting-IsExact calls 0 unset_inputs
      no_results calls-IsLegal (seven-IsNative, (tt, tt)) refl

abbrev five : List ℕ
five = 1 ∷ 2 ∷ 3 ∷ 4 ∷ 5 ∷ []

-- The members of a RocksDBPIMPL, and the content of its database.
record Disk : Type 0 where
  splits : Map String (List String)
  values : Map String (List ℕ)

abbrev disk_splits : Lens Disk (Map String (List String))
disk_splits = record { get = λ d. d.splits; set = λ m d. record d { splits = m } }

abbrev disk_db : RawDb Disk ℕ
disk_db = record {
  key_may_exist = λ d k. Map.count text_order k d.values;
  get = λ d k. Map.find text_order k d.values;
  put = λ k v d. (true, record d { values = Map.assign text_order k v d.values });
  delete = λ k d. (true, record d { values = Map.erase text_order k d.values });
}

disk_db-IsReliable : IsReliable text_order disk_splits disk_db
disk_db-IsReliable = record {
  put_ok = λ k v d. refl;
  get-put = λ k j v d. ground (arith, Map.find-assign text_order k j v d.values);
  may_exist = λ d k v h. ground arith;
  split-put = λ k v d. refl;
  get-set = λ m d k. refl;
  split-set = λ m d. refl;
}

abbrev disk : Disk
disk = record { splits = []; values = ("other", 9 ∷ []) ∷ [] }

disk-IsFree : IsFree 2 tallies text_order disk_splits disk_db "k" disk
unfolding Map.find same less_text less_nat
disk-IsFree = record {
  key_new = refl;
  sub_new = λ i. refl;
  other = λ i. behind_differs i;
  apart = λ i j h. tallies_apart i j h;
}

at-insert_long_example :
    ((RocksDb.insert 2 tallies text_order disk_splits (some disk_db) 2 "k" five disk).0 ≡ ok tt)
    × (RocksDb.at 2 tallies text_order disk_splits
          (some disk_db)
          2
          (RocksDb.insert 2 tallies text_order disk_splits (some disk_db) 2 "k" five disk).1
          "k"
        ≡ ok (owning five))
    × (RocksDb.at 2 tallies text_order disk_splits
          (some disk_db)
          2
          (RocksDb.insert 2 tallies text_order disk_splits
            (some disk_db)
            2
            "k"
            (7 ∷ [])
            (RocksDb.insert 2 tallies text_order disk_splits (some disk_db) 2 "k" five disk).1).1
          "k"
        ≡ ok (owning five))
at-insert_long_example =
    at-insert_long 2 tallies text_order disk_splits disk_db "k" disk_db-IsReliable five (7 ∷ [])
      disk disk-IsFree (omega arith) (omega arith) (omega arith)
