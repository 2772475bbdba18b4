-- ===== src/Cache/ModuleCache.antt =====
-- ModuleCache (cxx/src/pluginplay/cache/module_cache.cpp) and UserCache
-- (cxx/include/pluginplay/cache/user_cache.hpp and .ipp), over a database. A moved-from ModuleCache
-- has none.
use plugin_play.Base.{String, Bool, false, Option, none, some, [], ◌∷◌, if◌then◌else◌}
use plugin_play.Base.Order.{Order}
use plugin_play.Base.Map
use plugin_play.Base.Result.{Result, ok, err, out_of_range, runtime_error, fault, or_throw, ◌>>=◌}
use plugin_play.Base.Exec.{Exec, pure, reads, ◌>>=◌ as bind}
use plugin_play.Types.{Rtti}
use plugin_play.Any.{AnyField, Python, Target}
use plugin_play.Fields.ModuleInput
use plugin_play.Fields.ModuleInput.{ModuleInput}
use plugin_play.Fields.ModuleResult as Res
use plugin_play.Fields.ModuleResult.{ModuleResult}
use plugin_play.Module.{InputMap, ResultMap}
use plugin_play.Cache.Database.{Database, at_get}

module _ {S K V : Type 0} (m_pimpl : Option (Database S K V)) where
  -- ModuleCache::pimpl_
  abbrev pub assert_pimpl : Result (Database S K V)
  assert_pimpl = or_throw m_pimpl (
      runtime_error
        "ModuleCache does not have a PIMPL. Did you move from it or initialize it with a null pointer?")

  -- ModuleCache::count
  unfoldable pub count : S → K → Result Bool
  count s key = elim m_pimpl [ none ↦ ok false | some db ↦ db.count s key ]

  -- ModuleCache::cache
  unfoldable pub cache : K → V → Exec S (Unit {0})
  cache key value = bind (reads (λ _. assert_pimpl)) (λ db. db.insert key value)

  -- ModuleCache::uncache
  unfoldable pub uncache : S → K → Result V
  unfolding count at_get
  uncache s key = do
    there ← count s key
    if there
        then (or_throw m_pimpl fault >>= λ db. at_get db s key)
        else err (out_of_range "No cached results")

  -- ModuleCache::clear
  unfoldable pub clear : Exec S (Unit {0})
  clear = elim m_pimpl [ none ↦ pure tt | some db ↦ db.dump ]

-- UserCache; `input_type` is std::decay_t of the key's type, `result_type` of the value's.
module _ {S A : Type 0} (cim : Order String) (print : AnyField A → String) (py : Python A)
    (demangle : Rtti → String) (m_cache : Option (Database S (InputMap A) (ResultMap A))) where
  -- UserCache::wrap_inputs_
  unfoldable pub wrap_inputs : Rtti → Bool → A → Result (InputMap A)
  unfolding ModuleInput.set_type_as ModuleInput.change ModuleInput.empty
  wrap_inputs input_type is_lvalue key = do
    let (set, i) = ModuleInput.set_type_as cim print py demangle ModuleInput.empty false input_type
    done ← set
    j ← ModuleInput.change cim print py demangle i is_lvalue input_type key
    ok (("", j) ∷ [])

  -- UserCache::wrap_results_
  unfoldable pub wrap_results : Rtti → A → Result (ResultMap A)
  unfolding Res.set_type_as Res.change Res.empty
  wrap_results result_type value = do
    let (set, r) = Res.set_type_as py Res.empty result_type
    done ← set
    q ← Res.change r result_type value
    ok (("", q) ∷ [])

  -- UserCache::unwrap_results_
  unfoldable pub unwrap_results : Target → ResultMap A → Result A
  unfolding Map.find Res.value
  unwrap_results t value = do r ← Map.at cim "" value (out_of_range "map::at"); Res.value py r t

  -- UserCache::count
  unfoldable pub user_count : S → Rtti → Bool → A → Result Bool
  unfolding wrap_inputs count
  user_count s input_type is_lvalue key =
      wrap_inputs input_type is_lvalue key >>= λ k. count m_cache s k

  -- UserCache::cache
  unfoldable pub user_cache : Rtti → Bool → A → Rtti → A → Exec S (Unit {0})
  unfolding wrap_inputs wrap_results cache
  user_cache input_type is_lvalue key result_type value =
      bind (reads (λ _. wrap_inputs input_type is_lvalue key))
        λ k. bind (reads (λ _. wrap_results result_type value)) λ v. cache m_cache k v

  -- UserCache::uncache
  unfoldable pub user_uncache : S → Rtti → Bool → A → Target → Result A
  unfolding wrap_inputs unwrap_results uncache
  user_uncache s input_type is_lvalue key t = do
    k ← wrap_inputs input_type is_lvalue key
    v ← uncache m_cache s k
    unwrap_results t v

  -- UserCache::uncache with a default value
  unfoldable pub user_uncache_or : S → Rtti → Bool → A → Target → A → Result A
  unfolding user_count user_uncache
  user_uncache_or s input_type is_lvalue key t default_value = do
    there ← user_count s input_type is_lvalue key
    if there then user_uncache s input_type is_lvalue key t else ok default_value
