-- ===== src/Cache/TypeEraser.antt =====
-- TypeEraser: a database whose keys are put into AnyFields
-- (cxx/src/pluginplay/cache/database/type_eraser.hpp and type_eraser.ipp), and how inputs and
-- results are (make_any.hpp).
use plugin_play.Base.{List, [], ◌∷◌}
use plugin_play.Base.Result.{Result, ok, noexcept, ◌>>=◌}
use plugin_play.Base.Exec.{reads, ◌>>=◌ as bind}
use plugin_play.Any.{AnyField}
use plugin_play.Fields.ModuleInput
use plugin_play.Fields.ModuleInput.{ModuleInput}
use plugin_play.Fields.ModuleResult as Res
use plugin_play.Fields.ModuleResult.{ModuleResult}
use plugin_play.Cache.Database.{Database, at}

-- MakeAny<ModuleInput>::convert
unfoldable pub input_any : {A : Type 0} → ModuleInput A → Result (AnyField A)
unfolding ModuleInput.get
input_any i = ModuleInput.get i

-- MakeAny<ModuleResult>::convert
unfoldable pub result_any : {A : Type 0} → ModuleResult A → Result (AnyField A)
unfolding Res.get
result_any r = Res.get r

module _ {K X : Type 0} where
  -- the loop of keys_; `unwrap` is any_cast<KeyType>.
  unfoldable pub unwrap_all : (X → Result K) → List X → Result (List K)
  unwrap_all unwrap [] = ok []
  unwrap_all unwrap (x ∷ xs) = do k ← unwrap x; ks ← unwrap_all unwrap xs; ok (k ∷ ks)

module _ {S K X V : Type 0} where
  -- `wrap` is wrap_.
  unfoldable pub type_eraser : (K → Result X) → (X → Result K) → Database S X V → Database S K V
  unfolding unwrap_all at
  type_eraser wrap unwrap m_db = record {
    keys = λ s. m_db.keys s >>= λ xs. unwrap_all unwrap xs;
    count = λ s key. noexcept (wrap key >>= λ x. m_db.count s x);
    insert = λ key value. bind (reads (λ _. wrap key)) (λ x. m_db.insert x value);
    free = λ key. bind (reads (λ _. wrap key)) (λ x. m_db.free x);
    subscript = λ s key. wrap key >>= λ x. at m_db s x;
    backup = m_db.backup;
    dump = m_db.dump;
  }
