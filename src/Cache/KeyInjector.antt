-- ===== src/Cache/KeyInjector.antt =====
-- KeyInjector: a database that adds an entry to each key, which is a map
-- (cxx/src/pluginplay/cache/database/key_injector.hpp and key_injector.ipp).
use plugin_play.Base.{List, [], ◌∷◌}
use plugin_play.Base.Order.{Order}
use plugin_play.Base.Map
use plugin_play.Base.Map.{Map}
use plugin_play.Base.Result.{ok, noexcept, ◌>>=◌}
use plugin_play.Cache.Database.{Database, at}

module _ {K X : Type 0} (o : Order K) (key_to_inject : K) (value_to_inject : X) where
  -- KeyInjector::inject_
  unfoldable pub inject : Map K X → Map K X
  unfolding Map.emplace
  inject key = Map.emplace o key_to_inject value_to_inject key

  -- the loop of keys_
  unfoldable pub erase_injected : List (Map K X) → List (Map K X)
  unfolding Map.erase
  erase_injected [] = []
  erase_injected (key ∷ keys) = Map.erase o key_to_inject key ∷ erase_injected keys

  unfoldable pub key_injector : {S V : Type 0} → Database S (Map K X) V → Database S (Map K X) V
  unfolding inject erase_injected at
  key_injector m_db = record {
    keys = λ s. m_db.keys s >>= λ ks. ok (erase_injected ks);
    count = λ s key. noexcept (m_db.count s (inject key));
    insert = λ key value. m_db.insert (inject key) value;
    free = λ key. m_db.free (inject key);
    subscript = λ s key. at m_db s (inject key);
    backup = m_db.backup;
    dump = m_db.dump;
  }
