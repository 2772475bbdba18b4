-- ===== src/Cache/Native.antt =====
-- Native: a database that is a std::map, with a database that its entries are saved to
-- (cxx/src/pluginplay/cache/database/native.hpp and native.ipp).
use plugin_play.Base.{Option, none, some, [], ◌∷◌}
use plugin_play.Base.Lens.{Lens, over}
use plugin_play.Base.Order.{Order}
use plugin_play.Base.Map
use plugin_play.Base.Map.{Map}
use plugin_play.Base.Result.{ok, out_of_range, ◌>>=◌}
use plugin_play.Base.Exec.{Exec, pure, modify, ◌>>◌}
use plugin_play.Cache.Database.{Database, aliasing}

module _ {S K V : Type 0} where
  -- the loop of backup_
  unfoldable pub save_all : Database S K V → Map K V → Exec S (Unit {0})
  save_all db [] = pure tt
  save_all db ((k, v) ∷ map) = do db.insert k v; save_all db map

  -- `m_map` is m_map_, `o` its comparator and `m_backup` is m_backup_.
  module _ (m_map : Lens S (Map K V)) (o : Order K) (m_backup : Option (Database S K V)) where
    -- Native::backup_
    unfoldable pub backup : Exec S (Unit {0})
    unfolding save_all
    backup s = elim m_backup [ none ↦ (ok tt, s) | some db ↦ save_all db (m_map.get s) s ]

    -- Native::dump_
    unfoldable pub dump : Exec S (Unit {0})
    unfolding backup
    dump = do backup; modify (m_map.set [])

    unfoldable pub native : Database S K V
    unfolding backup dump Map.find Map.assign Map.erase
    native = record {
      keys = λ s. ok (Map.keys (m_map.get s));
      count = λ s key. ok (Map.count o key (m_map.get s));
      insert = λ key v. modify (over m_map (Map.assign o key v));
      free = λ key. modify (over m_map (Map.erase o key));
      subscript = λ s key. do
        v ← Map.at o key (m_map.get s) (out_of_range "map::at")
        ok (aliasing (some v));
      backup = backup;
      dump = dump;
    }
