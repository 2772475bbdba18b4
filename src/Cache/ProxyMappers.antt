-- ===== src/Cache/ProxyMappers.antt =====
-- KeyProxyMapper and ValueProxyMapper (cxx/src/pluginplay/cache/database/key_proxy_mapper.hpp and
-- .ipp, value_proxy_mapper.hpp and .ipp): databases that keep uuids in place of the values of their
-- keys, or of the values of their values.
use plugin_play.Base.{false, if◌then◌else◌}
use plugin_play.Base.Map.{Map}
use plugin_play.Base.Result.{ok, noexcept, ◌>>=◌}
use plugin_play.Base.Exec.{reads, ◌>>=◌ as bind, ◌>>◌}
use plugin_play.Cache.Database.{Database, at, at_get, owning}
use plugin_play.Cache.ProxyMapMaker.{ProxyMaker, ProxyMap}

module _ {S K X V : Type 0} (m_proxy_mapper : ProxyMaker S K X)
    (m_sub_db : Database S (ProxyMap K) V) where
  unfoldable pub key_proxy_mapper : Database S (Map K X) V
  unfolding at
  key_proxy_mapper = record {
    keys = λ s. ok (m_proxy_mapper.keys s);
    count = λ s key. noexcept (do
      proxied ← m_proxy_mapper.count s key
      if proxied then (m_proxy_mapper.at s key >>= λ pm. m_sub_db.count s pm) else ok false);
    insert = λ key value.
        m_proxy_mapper.insert key
        >> bind (reads (λ s. m_proxy_mapper.at s key)) (λ pm. m_sub_db.insert pm value);
    free = λ key. bind (reads (λ s. m_proxy_mapper.at s key)) (λ pm. m_sub_db.free pm);
    subscript = λ s key. m_proxy_mapper.at s key >>= λ pm. at m_sub_db s pm;
    backup = m_proxy_mapper.backup >> m_sub_db.backup;
    dump = m_proxy_mapper.backup >> m_sub_db.dump;
  }

module _ {S K J X : Type 0} (m_proxy_mapper : ProxyMaker S J X)
    (m_sub_db : Database S K (ProxyMap J)) where
  unfoldable pub value_proxy_mapper : Database S K (Map J X)
  unfolding at_get
  value_proxy_mapper = record {
    keys = m_sub_db.keys;
    count = m_sub_db.count;
    insert = λ key value.
        m_proxy_mapper.insert value
        >> bind (reads (λ s. m_proxy_mapper.at s value)) (λ pm. m_sub_db.insert key pm);
    free = m_sub_db.free;
    subscript = λ s key. do
      pm ← at_get m_sub_db s key
      value ← m_proxy_mapper.un_proxy s pm
      ok (owning value);
    backup = m_proxy_mapper.backup >> m_sub_db.backup;
    dump = m_proxy_mapper.backup >> m_sub_db.dump;
  }
