-- ===== src/Cache/ProxyMapMaker.antt =====
-- UUIDMapper, which gives a uuid to a value, and ProxyMapMaker, which does so for each value of a map
-- (cxx/src/pluginplay/cache/uuid_mapper.hpp and .ipp, proxy_map_maker.hpp and .ipp).
use plugin_play.Base.{String, Bool, true, false, List, [], ◌∷◌, if◌then◌else◌}
use plugin_play.Base.Lens.{Lens, over}
use plugin_play.Base.Order.{Order}
use plugin_play.Base.Map
use plugin_play.Base.Map.{Map}
use plugin_play.Base.Result.{Result, ok, out_of_range, noexcept, ◌>>=◌}
use plugin_play.Base.Exec.{Exec, pure, reads, modify, ◌>>=◌ as bind, ◌>>◌}
use plugin_play.Cache.Database.{Database, DbValue, get}
use plugin_play.Cache.Database

module _ {S V : Type 0} (m_db : Database S V String) where
  -- UUIDMapper::count
  unfoldable pub uuid_count : S → V → Result Bool
  uuid_count s v = noexcept (m_db.count s v)

  -- UUIDMapper::insert; `uuid_` is generate_uuid.
  unfoldable pub uuid_insert : Exec S String → V → Exec S (Unit {0})
  unfolding uuid_count
  uuid_insert uuid_ v =
      bind (reads (λ s. uuid_count s v))
        λ there. if there then pure tt else bind uuid_ (λ u. m_db.insert v u)

  -- UUIDMapper::at
  unfoldable pub uuid_at : S → V → Result (DbValue String)
  unfolding Database.at
  uuid_at s v = Database.at m_db s v

-- The map from the keys of a map to the uuids of its values
abbrev pub ProxyMap : Type 0 → Type 0
ProxyMap K = Map K String

-- The operations of a ProxyMapMaker.
pub record ProxyMaker (S K V : Type 0) : Type 0 where
  pub keys : S → List (Map K V)
  pub count : S → Map K V → Result Bool
  pub insert : Map K V → Exec S (Unit {0})
  pub free : Map K V → Exec S (Unit {0})
  pub at : S → Map K V → Result (ProxyMap K)
  pub un_proxy : S → ProxyMap K → Result (Map K V)
  pub backup : Exec S (Unit {0})
  pub dump : Exec S (Unit {0})

-- `cim` orders the keys of the maps, `pms` the maps of uuids, `m_buffer` is m_buffer_.
module _ {S K V : Type 0} (cim : Order K) (m_db : Database S V String) where
  -- ProxyMapMaker::count
  unfoldable pub count_all : S → Map K V → Result Bool
  unfolding uuid_count
  count_all s [] = ok true
  count_all s ((k, v) ∷ key) = do
    there ← uuid_count m_db s v
    if there then count_all s key else ok false

  -- the loop of insert
  unfoldable pub insert_all : Exec S String → Map K V → Exec S (Unit {0})
  unfolding uuid_insert
  insert_all uuid_ [] = pure tt
  insert_all uuid_ ((k, v) ∷ key) = uuid_insert m_db uuid_ v >> insert_all uuid_ key

  -- the loop of free
  unfoldable pub free_all : Map K V → Exec S (Unit {0})
  free_all [] = pure tt
  free_all ((k, v) ∷ key) = m_db.free v >> free_all key

  -- the loop of at: `rv` is the map so far
  unfoldable pub at_all : S → Map K V → ProxyMap K → Result (ProxyMap K)
  unfolding uuid_at get Map.emplace
  at_all s [] rv = ok rv
  at_all s ((k, v) ∷ key) rv = do
    d ← uuid_at m_db s v
    u ← get d
    at_all s key (Map.emplace cim k u rv)

  module _ (uuid_ : Exec S String) (pms : Order (ProxyMap K))
      (m_buffer : Lens S (Map (ProxyMap K) (Map K V))) where
    unfoldable pub proxy_map_maker : ProxyMaker S K V
    unfolding count_all insert_all free_all at_all Map.find Map.emplace
    proxy_map_maker = record {
      keys = λ s. Map.values (m_buffer.get s);
      count = count_all;
      insert = λ key.
          insert_all uuid_ key
          >> bind (reads (λ s. at_all s key []))
              (λ pm. modify (over m_buffer (Map.emplace pms pm key)));
      free = free_all;
      at = λ s key. at_all s key [];
      un_proxy = λ s value. Map.at pms value (m_buffer.get s) (out_of_range "map::at");
      backup = m_db.backup;
      dump = m_db.dump;
    }
