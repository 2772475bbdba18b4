-- ===== src/Module/World.antt =====
-- What the model of a run takes from elsewhere, and the reads of the cache
-- (cxx/src/pluginplay/module/detail_/module_pimpl.ipp).
use plugin_play.Base.{ℕ, String, Bool, false, Option, none, some}
use plugin_play.Base.Order.{Order}
use plugin_play.Base.Result.{Result, ok, ◌>>=◌}
use plugin_play.Base.Exec.{Exec}
use plugin_play.Types.{Rtti}
use plugin_play.Any.{AnyField, Python}
use plugin_play.Module.{Module, InputMap, ResultMap, SubmoduleMap, Store, deref}
use plugin_play.Module.Memo.{UuidMap, submod_uuids, merge_inputs}

-- What a ModuleCache does (cache::ModuleCache), the one at an address; the caches share what they
-- are made of.
pub record CacheApi (A C : Type 0) : Type 0 where
  pub count : ℕ → C → InputMap A → Result Bool
  pub cache : ℕ → InputMap A → ResultMap A → Exec C (Unit {0})
  pub uncache : ℕ → C → InputMap A → Result (ResultMap A)
  pub clear : ℕ → Exec C (Unit {0})

-- What the model takes from elsewhere: the comparators, the text of values and types, pybind11,
-- the caches, and the developers' run_ functions, which may do anything to the store.
pub record World (A C : Type 0) : Type 0 where
  pub cim : Order String
  pub strings : Order String
  pub print : AnyField A → String
  pub py : Python A
  pub demangle : Rtti → String
  pub uuids_type : Rtti
  pub wrap_uuids : UuidMap → A
  pub caches : CacheApi A C
  pub algorithms : ℕ → InputMap A → SubmoduleMap A → Exec (Store A C) (ResultMap A)

module _ {A C : Type 0} (w : World A C) where
  -- m_cache_ && m_cache_->count(ps)
  unfoldable pub counts : Option ℕ → Store A C → InputMap A → Result Bool
  counts none st ps = ok false
  counts (some p) st ps = w.caches.count p st.caches ps

  -- ps = merge_inputs_(ps)
  unfoldable pub merged : ℕ → Store A C → ℕ → Module A → InputMap A → Result (InputMap A)
  unfolding merge_inputs submod_uuids
  merged n st a m ps =
      merge_inputs w.cim w.py w.print w.demangle w.uuids_type w.wrap_uuids w.strings n st a m ps

  -- ModulePIMPL::is_cached
  unfoldable pub is_cached : ℕ → ℕ → InputMap A → Store A C → Result Bool
  unfolding merged counts
  is_cached n a in_inputs st = do
    m ← deref st a
    elim m.cache [
      | none ↦ ok false
      | some p ↦ do ps ← merged n st a m in_inputs; counts (some p) st ps
    ]
