-- ===== src/Cache/ManagerCache.antt =====
-- ModuleManagerCache (cxx/src/pluginplay/cache/module_manager_cache.cpp): the caches of a manager's
-- modules, by key. A cache is at an address, which std::make_shared hands out.
pub mod Shares
use plugin_play.Base.{ℕ, suc, String, concat, Bool, ◌==◌, if◌then◌else◌}
use plugin_play.Base.Order.{Order}
use plugin_play.Base.Map.{Map, find, count, emplace}
use plugin_play.Base.Result.{ok, out_of_range, or_throw}
use plugin_play.Base.Exec.{Exec, pure, reads, ◌>>=◌, ◌>>◌}

-- ModuleManagerCachePIMPL, with the members of all caches in `heap`; `fresh` is the next address.
pub record CacheState (C : Type 0) : Type 0 where
  pub fresh : ℕ
  pub heap : C
  pub module_caches : Map String ℕ
  pub user_caches : Map String ℕ

-- the key of a user cache
abbrev pub mangled : String → String
mangled key = concat (concat "__PP__ " key) "-USER __PP__"

-- `strings` orders std::map<std::string>; `new_cache` makes an empty cache at an address, for a key.
module _ {C : Type 0} (strings : Order String) (new_cache : ℕ → String → C → C) where
  -- make_module_cache_, and the std::make_shared around it
  unfoldable pub make_module_cache : String → Exec (CacheState C) ℕ
  make_module_cache key s =
      (ok s.fresh, record s { fresh = suc s.fresh; heap = new_cache s.fresh key s.heap })

  unfoldable pub get_or_make_module_cache : String → Exec (CacheState C) ℕ
  unfolding make_module_cache
  get_or_make_module_cache key = do
    there ← reads (λ s. ok (count strings key s.module_caches))
    if there then pure tt else (do
      p ← make_module_cache key
      λ s. (ok tt, record s { module_caches = emplace strings key p s.module_caches }))
    reads (λ s. or_throw (find strings key s.module_caches) (out_of_range "map::at"))

  unfoldable pub get_or_make_user_cache : String → Exec (CacheState C) ℕ
  unfolding make_module_cache
  get_or_make_user_cache key = do
    there ← reads (λ s. ok (count strings (mangled key) s.user_caches))
    if there then pure tt else (do
      p ← make_module_cache (mangled key)
      λ s. (ok tt, record s { user_caches = emplace strings (mangled key) p s.user_caches }))
    reads (λ s. or_throw (find strings (mangled key) s.user_caches) (out_of_range "map::at"))
