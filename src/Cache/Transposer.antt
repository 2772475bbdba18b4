-- ===== src/Cache/Transposer.antt =====
-- Transposer: a database that is the inverse of another, which maps the values to the keys
-- (cxx/src/pluginplay/cache/database/transposer.hpp and transposer.ipp).
use plugin_play.Base.{Bool, Option, none, some, has, List, [], ◌∷◌, if◌then◌else◌}
use plugin_play.Base.Lens.{Lens, over}
use plugin_play.Base.Order.{Order}
use plugin_play.Base.Set
use plugin_play.Base.Result.{Result, ok, err, out_of_range, noexcept, ◌>>=◌}
use plugin_play.Base.Exec.{Exec, pure, reads, modify, ◌>>=◌ as bind, ◌>>◌}
use plugin_play.Cache.Database.{Database, aliasing, at_get}

module _ {S K V : Type 0} where
  -- the loop of keys_
  unfoldable pub wrapped_keys : Database S V K → S → List V → Result (List K)
  unfolding at_get
  wrapped_keys db s [] = ok []
  wrapped_keys db s (val ∷ vals) = do k ← at_get db s val; ks ← wrapped_keys db s vals; ok (k ∷ ks)

  -- the loop of count_, free_ and at_: the first value that is stored for the key; `eq` is the
  -- operator== of the keys.
  unfoldable pub search :
      (K → K → Result Bool) → Database S V K → S → K → List V → Result (Option V)
  unfolding at_get
  search eq db s key [] = ok none
  search eq db s key (val ∷ vals) = do
    k ← at_get db s val
    hit ← eq k key
    if hit then ok (some val) else search eq db s key vals

  module _ (eq : K → K → Result Bool) (m_keys : Lens S (List V)) (o : Order V)
      (m_db : Database S V K) where
    -- Transposer::free_
    unfoldable pub free : K → Exec S (Unit {0})
    unfolding search
    free key = bind (reads (λ s. search eq m_db s key (m_keys.get s))) λ found. elim found [
      | none ↦ pure tt
      | some val ↦ m_db.free val >> modify (over m_keys (Set.erase o val))
    ]

    unfoldable pub transposer : Database S K V
    unfolding wrapped_keys search free Set.insert
    transposer = record {
      keys = λ s. wrapped_keys m_db s (m_keys.get s);
      count = λ s key. noexcept (do found ← search eq m_db s key (m_keys.get s); ok (has found));
      insert = λ key value. modify (over m_keys (Set.insert o value)) >> m_db.insert value key;
      free = free;
      subscript = λ s key. do
        found ← search eq m_db s key (m_keys.get s)
        elim found [
          | none ↦ err (out_of_range "Key not found")
          | some val ↦ ok (aliasing (some val))
        ];
      backup = m_db.backup;
      dump = m_db.dump >> modify (m_keys.set []);
    }
