-- ===== src/Cache/RocksDb.antt =====
-- RocksDBPIMPL (cxx/src/pluginplay/cache/database/rocksdb/detail_/rocksdb_pimpl.hpp and .ipp), which
-- stores a long value in pieces. RocksDB itself is a parameter.
pub mod Split
pub mod RoundTrip
use plugin_play.Base.{
  ℕ, zero, suc, ◌+◌, ◌-◌, String, concat, Bool, true, false, not, Option, none, some, has, List, [],
  ◌∷◌, length, ◌++◌, ltb, if◌then◌else◌,
}
use plugin_play.Base.Lens.{Lens, over}
use plugin_play.Base.Order.{Order}
use plugin_play.Base.Map
use plugin_play.Base.Map.{Map}
use plugin_play.Base.Result.{
  Result, ok, err, out_of_range, runtime_error, overflow, fault, noexcept, guard, or_throw, ◌>>=◌,
}
use plugin_play.Base.Exec.{Exec, pure, throw, reads, modify, ◌>>=◌ as bind, ◌>>◌}
use plugin_play.Cache.Database.{Database, DbValue, owning, aliasing, get}

-- rocksdb::DB: `Get` leaves its buffer empty where there is no value, and `none` is a status that
-- is not ok.
pub record RawDb (S B : Type 0) : Type 0 where
  pub key_may_exist : S → String → Bool
  pub get : S → String → Option (List B)
  pub put : String → List B → S → Bool × S
  pub delete : String → S → Bool × S

module _ {B : Type 0} where
  abbrev pub take : ℕ → List B → List B
  take n [] = []
  take zero (x ∷ xs) = []
  take (suc n) (x ∷ xs) = x ∷ take n xs

  abbrev pub drop : ℕ → List B → List B
  drop n [] = []
  drop zero (x ∷ xs) = x ∷ xs
  drop (suc n) (x ∷ xs) = drop n xs

  -- split_value_; the loop takes fuel, one unit for each piece.
  unfoldable pub split_value : ℕ → ℕ → List B → List (List B)
  split_value zero max value = value ∷ []
  split_value (suc n) max value =
      let rest = split_value n max (drop max value) in
      if ltb max (length value) then take max value ∷ rest else value ∷ []

  abbrev pub is_nil : List B → Bool
  is_nil [] = true
  is_nil (x ∷ xs) = false

-- the keys of the pieces: `to_string` is std::to_string.
unfoldable pub sub_keys : {B : Type 0} → (ℕ → String) → String → ℕ → List (List B) → List String
sub_keys to_string key i [] = []
sub_keys to_string key i (c ∷ chunks) =
    concat key (to_string i) ∷ sub_keys to_string key (suc i) chunks

-- `max` is m_max_value_size_, `m_split` is m_split_values_. A null m_db_ is `m_db` of none.
module _ {S B : Type 0} (max : ℕ) (to_string : ℕ → String) (strings : Order String)
    (m_split : Lens S (Map String (List String))) (m_db : Option (RawDb S B)) where
  -- assert_ptr_
  abbrev pub assert_ptr : Result (RawDb S B)
  assert_ptr =
      or_throw m_db
        (runtime_error "No allocated database. Was this PIMPL moved from or default allocated?")

  -- check_status_
  abbrev pub check_status : Bool × S → Result (Unit {0}) × S
  check_status (fine, s) = (guard fine (runtime_error "status"), s)

  abbrev buffer_of : Option (List B) → List B
  buffer_of none = []
  buffer_of (some v) = v

  unfoldable pub count : S → String → Result Bool
  unfolding Map.find
  count s key = noexcept (do
    db ← assert_ptr
    if Map.count strings key (m_split.get s)
        then ok true
        else if db.key_may_exist s key
        then ok (not (is_nil (buffer_of (db.get s key))))
        else ok false)

  -- the loop of large_value_insert_: `go` is insert
  unfoldable pub insert_chunks :
      (String → List B → Exec S (Unit {0})) → String → ℕ → List (List B) → Exec S (Unit {0})
  insert_chunks go key i [] = pure tt
  insert_chunks go key i (c ∷ chunks) =
      go (concat key (to_string i)) c >> insert_chunks go key (suc i) chunks

  -- large_value_insert_
  unfoldable pub large_value_insert :
      (String → List B → Exec S (Unit {0})) → String → List B → Exec S (Unit {0})
  unfolding insert_chunks split_value sub_keys Map.emplace
  large_value_insert go key value =
      let chunks = split_value (length value) max value in
      insert_chunks go key 0 chunks
      >> modify (over m_split (Map.emplace strings key (sub_keys to_string key 0 chunks)))

  -- RocksDBPIMPL::insert, which calls itself for the pieces of a long value
  unfoldable pub insert : ℕ → String → List B → Exec S (Unit {0})
  unfolding large_value_insert
  insert zero key value = throw overflow
  insert (suc n) key value = bind (reads (λ _. assert_ptr)) λ db.
      let large = large_value_insert (λ k v. insert n k v) key value in
      if ltb max (length value) then large else λ s. check_status (db.put key value s)

  -- the loop of large_value_free_: `go` is free
  unfoldable pub free_chunks : (String → Exec S (Unit {0})) → List String → Exec S (Unit {0})
  free_chunks go [] = pure tt
  free_chunks go (k ∷ ks) = go k >> free_chunks go ks

  -- RocksDBPIMPL::free and large_value_free_; a piece whose key is that of a long value is freed as
  -- one.
  unfoldable pub free : ℕ → String → Exec S (Unit {0})
  unfolding free_chunks Map.find Map.erase
  free zero key = throw overflow
  free (suc n) key = bind (reads (λ _. assert_ptr)) λ db.
      bind (reads (λ s. ok (Map.find strings key (m_split.get s)))) λ pieces. elim pieces [
        | none ↦ λ s. check_status (db.delete key s)
        | some ks ↦ free_chunks (λ k. free n k) ks >> modify (over m_split (Map.erase strings key))
      ]

  -- the loop of large_value_at_: `go` is at
  unfoldable pub at_chunks : (String → Result (DbValue (List B))) → List String → Result (List B)
  unfolding get
  at_chunks go [] = ok []
  at_chunks go (k ∷ ks) = do d ← go k; v ← get d; rest ← at_chunks go ks; ok (v ++ rest)

  -- RocksDBPIMPL::at and large_value_at_
  unfoldable pub at : ℕ → S → String → Result (DbValue (List B))
  unfolding count at_chunks Map.find
  at zero s key = err overflow
  at (suc n) s key = do
    db ← assert_ptr
    there ← count s key
    let large = λ (ks : List String). (at_chunks (λ k. at n s k) ks >>= λ v. ok (owning v))
    let small = (or_throw (db.get s key) (out_of_range "status") >>= λ v. ok (owning v))
    if there
        then elim (Map.find strings key (m_split.get s)) [ none ↦ small | some ks ↦ large ks ]
        else ok (aliasing none)
