-- ===== src/Cache/ManagerCache/Shares.antt =====
-- Which keys share a cache.
use plugin_play.Base.{
  ℕ, ◌≤◌, String, ◌≡◌, refl, none, some, arith, Option-cases, inl, inr, if◌then◌else◌,
}
use plugin_play.Base.Order.{Order, same, same_refl}
use plugin_play.Base.Map.{find, find-emplace, find_congr}
use plugin_play.Base.Result.{ok}
use plugin_play.Cache.ManagerCache.{
  CacheState, mangled, get_or_make_module_cache, get_or_make_user_cache,
}

module _ {C : Type 0} (strings : Order String) (new_cache : ℕ → String → C → C) where
  -- get_or_make_module_cache returns the address that the key led to, else the next one, where
  -- `new_cache` makes a cache. The key then leads to it and every other key leads where it led, and
  -- the map of user caches stays.
  find-get_or_make_module_cache :
      (key k : String) (s : CacheState C)
      → (p : ℕ) × (s' : CacheState C) × (get_or_make_module_cache strings new_cache key s
          ≡ (ok p, s'))
        × (find strings k s'.module_caches
            ≡ (if same strings key k then some p else find strings k s.module_caches))
        × (p ≡ elim (find strings key s.module_caches) [ none ↦ s.fresh | some q ↦ q ])
        × (s'.heap ≡ elim (find strings key s.module_caches) [
          | none ↦ new_cache s.fresh key s.heap
          | some q ↦ s.heap
        ])
        × (s'.user_caches ≡ s.user_caches)
        × (s.fresh ≤ s'.fresh)
  unfolding get_or_make_module_cache
  find-get_or_make_module_cache key k s = elim (Option-cases (find strings key s.module_caches)) [
    | inr (p, e) ↦ (
      p,
      s,
      ground arith,
      ground (arith, find_congr strings key k s.module_caches),
      ground arith,
      ground arith,
      refl,
      omega arith,
    )
    | inl e ↦ (
      s.fresh,
      (get_or_make_module_cache strings new_cache key s).1,
      ground (arith, find-emplace strings key key s.fresh s.module_caches, same_refl strings key),
      ground (arith, find-emplace strings key k s.fresh s.module_caches),
      ground arith,
      ground arith,
      ground arith,
      ground arith,
    )
  ]

  pub get_or_make_module_cache-ok :
      (key : String) (s : CacheState C)
      → (p : ℕ) × (s' : CacheState C) × (get_or_make_module_cache strings new_cache key s
          ≡ (ok p, s'))
        × (s.fresh ≤ s'.fresh)
  get_or_make_module_cache-ok key s =
      let (p, s', calls, found, which, heap, maps, le) = find-get_or_make_module_cache key key s in
      (p, s', calls, le)

  pub get_or_make_user_cache-ok :
      (key : String) (s : CacheState C)
      → (p : ℕ) × (s' : CacheState C) × (get_or_make_user_cache strings new_cache key s
          ≡ (ok p, s'))
        × (s.fresh ≤ s'.fresh)
  unfolding get_or_make_user_cache
  get_or_make_user_cache-ok key s =
      let k = mangled key in
      elim (Option-cases (find strings k s.user_caches)) [
        | inr (p, e) ↦ (p, s, ground arith, omega arith)
        | inl e ↦ (
          s.fresh,
          (get_or_make_user_cache strings new_cache key s).1,
          ground (arith, find-emplace strings k k s.fresh s.user_caches, same_refl strings k),
          ground arith,
        )
      ]
