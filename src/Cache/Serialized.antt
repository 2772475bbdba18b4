-- ===== src/Cache/Serialized.antt =====
-- Serialized: a database over one of binary texts
-- (cxx/src/pluginplay/cache/database/serialized.hpp and serialized.ipp).
use plugin_play.Base.{Bool, false, List, [], ◌∷◌}
use plugin_play.Base.Result.{Result, ok, err, fault, terminated, overflow, ◌>>=◌}
use plugin_play.Base.Exec.{reads, ◌>>=◌ as bind}
use plugin_play.Cache.Database.{Database, at_get, owning}

-- cereal's archives for one type
pub record Archive (B T : Type 0) : Type 0 where
  pub serialize : T → Result B
  pub deserialize : B → Result T

-- `try { return r; } catch(...) { return false; }`: only an exception is caught.
abbrev pub or_false : Result Bool → Result Bool
or_false (ok b) = ok b
or_false (err fault) = err fault
or_false (err terminated) = err terminated
or_false (err overflow) = err overflow
or_false (err e) = ok false

module _ {B K : Type 0} where
  -- the loop of keys_
  unfoldable pub deserialize_all : Archive B K → List B → Result (List K)
  deserialize_all ar [] = ok []
  deserialize_all ar (b ∷ bs) = do k ← ar.deserialize b; ks ← deserialize_all ar bs; ok (k ∷ ks)

module _ {S B K V : Type 0} (ks : Archive B K) (vs : Archive B V) (m_db : Database S B B) where
  unfoldable pub serialized : Database S K V
  unfolding deserialize_all at_get
  serialized = record {
    keys = λ s. m_db.keys s >>= λ bs. deserialize_all ks bs;
    count = λ s key. or_false (ks.serialize key >>= λ b. m_db.count s b);
    insert = λ key value.
        bind (reads (λ _. ks.serialize key))
          λ skey. bind (reads (λ _. vs.serialize value)) λ sval. m_db.insert skey sval;
    free = λ key. bind (reads (λ _. ks.serialize key)) (λ skey. m_db.free skey);
    subscript = λ s key. do
      skey ← ks.serialize key
      sval ← at_get m_db s skey
      rv ← vs.deserialize sval
      ok (owning rv);
    backup = m_db.backup;
    dump = m_db.dump;
  }
