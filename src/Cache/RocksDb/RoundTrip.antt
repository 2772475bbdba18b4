-- ===== src/Cache/RocksDb/RoundTrip.antt =====
-- A long value that is stored in RocksDB, and read again.
use plugin_play.Base.{
  ℕ, suc, ◌≤◌, ◌<◌, String, concat, true, false, ◌≡◌, refl, ap, ◌∙◌, none, some, List, [], ◌∷◌,
  length, if◌then◌else◌, arith, All,
}
use plugin_play.Base.Lens.{Lens}
use plugin_play.Base.Order.{Order, same, same_refl}
use plugin_play.Base.Map
use plugin_play.Base.Map.{Map}
use plugin_play.Base.Result.{ok}
use plugin_play.Cache.Database.{owning, get}
use plugin_play.Cache.RocksDb.{
  RawDb, split_value, sub_keys, insert_chunks, at_chunks, count, insert, at,
}
use plugin_play.Cache.RocksDb.Split.{IsPiece, join, split_value-join, split_value_pieces}

-- What RocksDB documents, for a database that never fails, and how the members of the object lie
-- beside it.
pub record IsReliable {S B : Type 0} (strings : Order String)
    (m_split : Lens S (Map String (List String))) (raw : RawDb S B) : Type 0 where
  pub put_ok : (k : String) (v : List B) (s : S) → (raw.put k v s).0 ≡ true
  pub get-put :
      (k j : String) (v : List B) (s : S)
      → raw.get (raw.put k v s).1 j ≡ (if same strings k j then some v else raw.get s j)
  pub may_exist :
      (s : S) (k : String) (v : List B) → raw.get s k ≡ some v → raw.key_may_exist s k ≡ true
  pub split-put : (k : String) (v : List B) (s : S) → m_split.get (raw.put k v s).1 ≡ m_split.get s
  pub get-set :
      (m : Map String (List String)) (s : S) (k : String)
      → raw.get (m_split.set m s) k ≡ raw.get s k
  pub split-set : (m : Map String (List String)) (s : S) → m_split.get (m_split.set m s) ≡ m

module _ {S B : Type 0} (max : ℕ) (to_string : ℕ → String) (strings : Order String)
    (m_split : Lens S (Map String (List String))) (raw : RawDb S B) (key : String) where
  abbrev sub : ℕ → String
  sub i = concat key (to_string i)

  -- No key of a piece is the key of a long value, nor `key`, and no two are the same.
  pub record IsFree (s : S) : Type 0 where
    pub key_new : Map.find strings key (m_split.get s) ≡ none
    pub sub_new : (i : ℕ) → Map.find strings (concat key (to_string i)) (m_split.get s) ≡ none
    pub other : (i : ℕ) → same strings key (concat key (to_string i)) ≡ false
    pub apart :
        (i j : ℕ)
        → same strings (concat key (to_string i)) (concat key (to_string j)) ≡ true
        → i ≡ j

  abbrev after : ℕ → List (List B) → S → S
  after i [] s = s
  after i (c ∷ cs) s = after (suc i) cs (raw.put (sub i) c s).1

  abbrev Holds : S → ℕ → List (List B) → Type 0
  Holds s i [] = Unit
  Holds s i (c ∷ cs) = (raw.get s (sub i) ≡ some c) × Holds s (suc i) cs

  module _ (laws : IsReliable strings m_split raw) where
    insert_chunks-after :
        (i : ℕ) (cs : List (List B)) (s : S)
        → All (IsPiece max) cs
        → insert_chunks max to_string strings m_split
            (some raw)
            (λ k v. insert max to_string strings m_split (some raw) 1 k v)
            key
            i
            cs
            s
          ≡ (ok tt, after i cs s)
    unfolding insert_chunks insert
    insert_chunks-after i [] s all = refl
    insert_chunks-after i (c ∷ cs) s ((full, short), all) =
        ground (
          arith,
          laws.put_ok (sub i) c s,
          insert_chunks-after (suc i) cs (raw.put (sub i) c s).1 all,
        )

    get-after :
        (i : ℕ) (cs : List (List B)) (s : S) (j : String)
        → ((n : ℕ) → i ≤ n → same strings (sub n) j ≡ false)
        → raw.get (after i cs s) j ≡ raw.get s j
    get-after i [] s j h = refl
    get-after i (c ∷ cs) s j h =
        get-after (suc i) cs (raw.put (sub i) c s).1 j (λ n lt. h n (omega (arith, lt)))
        ∙ ground (arith, laws.get-put (sub i) j c s, h i (omega arith))

    after-Holds :
        (i : ℕ) (cs : List (List B)) (s : S)
        → ((a b : ℕ) → same strings (sub a) (sub b) ≡ true → a ≡ b)
        → Holds (after i cs s) i cs
    after-Holds i [] s apart = tt
    after-Holds i (c ∷ cs) s apart = (
      get-after (suc i) cs (raw.put (sub i) c s).1 (sub i) (λ n lt. ground (arith, apart n i))
          ∙ ground (arith, laws.get-put (sub i) (sub i) c s, same_refl strings (sub i)),
      after-Holds (suc i) cs (raw.put (sub i) c s).1 apart,
    )

    split-after : (i : ℕ) (cs : List (List B)) (s : S) → m_split.get (after i cs s) ≡ m_split.get s
    split-after i [] s = refl
    split-after i (c ∷ cs) s =
        split-after (suc i) cs (raw.put (sub i) c s).1 ∙ laws.split-put (sub i) c s

    set-Holds :
        (m : Map String (List String)) (s : S) (i : ℕ) (cs : List (List B))
        → Holds s i cs
        → Holds (m_split.set m s) i cs
    set-Holds m s i [] h = tt
    set-Holds m s i (c ∷ cs) (h, rest) =
        (laws.get-set m s (sub i) ∙ h, set-Holds m s (suc i) cs rest)

    at_chunks-join :
        (s : S) (i : ℕ) (cs : List (List B))
        → ((n : ℕ) → Map.find strings (sub n) (m_split.get s) ≡ none)
        → All (IsPiece max) cs
        → Holds s i cs
        → at_chunks max to_string strings m_split
            (some raw)
            (λ k. at max to_string strings m_split (some raw) 1 s k)
            (sub_keys to_string key i cs)
          ≡ ok (join cs)
    unfolding at_chunks at count get sub_keys
    at_chunks-join s i [] new all h = refl
    at_chunks-join s i (c ∷ cs) new ((full, short), all) (h, rest) =
        ground
          (arith, new i, laws.may_exist s (sub i) c h, at_chunks-join s (suc i) cs new all rest)

    -- What is left once a long value is stored.
    abbrev stored : List B → S → S
    stored value s =
        let chunks = split_value (length value) max value in
        let s1 = after 0 chunks s in
        m_split.set (Map.emplace strings key (sub_keys to_string key 0 chunks) (m_split.get s1)) s1

    insert-stored :
        (value : List B) (s : S)
        → All (IsPiece max) (split_value (length value) max value)
        → max < length value
        → insert max to_string strings m_split (some raw) 2 key value s ≡ (ok tt, stored value s)
    unfolding insert
    insert-stored value s pieces lt =
        ground (arith, insert_chunks-after 0 (split_value (length value) max value) s pieces)

    split-stored :
        (value : List B) (s : S) (j : String)
        → IsFree s
        → Map.find strings j (m_split.get (stored value s)) ≡ (
            if same strings key j
            then some (sub_keys to_string key 0 (split_value (length value) max value))
            else Map.find strings j (m_split.get s))
    split-stored value s j free =
        let chunks = split_value (length value) max value in
        let s1 = after 0 chunks s in
        let ks = sub_keys to_string key 0 chunks in
        ground (
          arith,
          laws.split-set (Map.emplace strings key ks (m_split.get s1)) s1,
          split-after 0 chunks s,
          Map.find-emplace strings key j ks (m_split.get s),
          free.key_new,
        )

    sub_new-stored :
        (value : List B) (s : S) (n : ℕ)
        → IsFree s
        → Map.find strings (sub n) (m_split.get (stored value s)) ≡ none
    sub_new-stored value s n free =
        split-stored value s (sub n) free ∙ ground (arith, free.other n, free.sub_new n)

    stored-Holds :
        (value : List B) (s : S)
        → IsFree s
        → Holds (stored value s) 0 (split_value (length value) max value)
    stored-Holds value s free =
        let chunks = split_value (length value) max value in
        set-Holds _ (after 0 chunks s) 0 chunks (after-Holds 0 chunks s free.apart)

    -- A key whose pieces are there is read as their value.
    at-Holds :
        (value : List B) (s : S)
        → Map.find strings key (m_split.get s)
          ≡ some (sub_keys to_string key 0 (split_value (length value) max value))
        → ((n : ℕ) → Map.find strings (sub n) (m_split.get s) ≡ none)
        → All (IsPiece max) (split_value (length value) max value)
        → Holds s 0 (split_value (length value) max value)
        → at max to_string strings m_split (some raw) 2 s key ≡ ok (owning value)
    unfolding at count
    at-Holds value s found new pieces h = ground (
      arith,
      at_chunks-join s 0 (split_value (length value) max value) new pieces h,
      split_value-join (length value) max value,
    )

    -- What at gives back of a long value.
    at-insert :
        (value : List B) (s : S)
        → IsFree s
        → 1 ≤ max
        → max < length value
        → ((insert max to_string strings m_split (some raw) 2 key value s).0 ≡ ok tt)
          × (at max to_string strings m_split
                (some raw)
                2
                (insert max to_string strings m_split (some raw) 2 key value s).1
                key
              ≡ ok (owning value))
    at-insert value s free m lt =
        let pieces =
          split_value_pieces (length value) max value m (omega (arith, m, lt)) (omega arith) in
        let runs = insert-stored value s pieces lt in
        let found = split-stored value s key free ∙ ground (arith, same_refl strings key) in
        let reads =
          at-Holds value (stored value s) found (λ n. sub_new-stored value s n free) pieces
            (stored-Holds value s free) in
        (
          ap (λ r. r.0) runs,
          ap (λ r. at max to_string strings m_split (some raw) 2 r.1 key) runs ∙ reads,
        )

    put-Holds :
        (short : List B) (s : S) (i : ℕ) (cs : List (List B))
        → ((n : ℕ) → same strings key (sub n) ≡ false)
        → Holds s i cs
        → Holds (raw.put key short s).1 i cs
    put-Holds short s i [] other h = tt
    put-Holds short s i (c ∷ cs) other (h, rest) = (
      ground (arith, laws.get-put key (sub i) short s, other i),
      put-Holds short s (suc i) cs other rest,
    )

    -- A short value under the key of a long one is not seen.
    at-insert_short :
        (value short : List B) (s : S)
        → IsFree s
        → 1 ≤ max
        → max < length value
        → length short ≤ max
        → at max to_string strings m_split
            (some raw)
            2
            (insert max to_string strings m_split
              (some raw)
              2
              key
              short
              (insert max to_string strings m_split (some raw) 2 key value s).1).1
            key
          ≡ ok (owning value)
    unfolding insert
    at-insert_short value short s free m lt le =
        let pieces =
          split_value_pieces (length value) max value m (omega (arith, m, lt)) (omega arith) in
        let runs = insert-stored value s pieces lt in
        let again : (insert max to_string strings m_split (some raw) 2 key short (stored value s)).1
            ≡ (raw.put key short (stored value s)).1 =
          ground arith in
        let kept = laws.split-put key short (stored value s) in
        let found =
          ap (λ ms. Map.find strings key ms) kept
          ∙ split-stored value s key free
          ∙ ground (arith, same_refl strings key) in
        let new =
          λ (n : ℕ). ap (λ ms. Map.find strings (sub n) ms) kept ∙ sub_new-stored value s n free in
        ap
          (λ r.
            at max to_string strings m_split (some raw) 2
              (insert max to_string strings m_split (some raw) 2 key short r.1).1 key)
          runs
        ∙ ap (λ r. at max to_string strings m_split (some raw) 2 r key) again
        ∙ at-Holds value (raw.put key short (stored value s)).1 found new pieces (
            put-Holds short (stored value s) 0 (split_value (length value) max value) free.other
              (stored-Holds value s free))

    -- A value that is longer than the maximum, which is at least 1, can be inserted under a key, and
    -- at then gives it back, in a database that does not fail: where the key holds no long value,
    -- the keys of the pieces differ from it and from each other, and none of them holds a long
    -- value. A short value that is inserted under the key afterwards is never seen: at still gives
    -- the long one.
    pub at-insert_long :
        (value short : List B) (s : S)
        → IsFree s
        → 1 ≤ max
        → max < length value
        → length short ≤ max
        → ((insert max to_string strings m_split (some raw) 2 key value s).0 ≡ ok tt)
          × (at max to_string strings m_split
                (some raw)
                2
                (insert max to_string strings m_split (some raw) 2 key value s).1
                key
              ≡ ok (owning value))
          × (at max to_string strings m_split
                (some raw)
                2
                (insert max to_string strings m_split
                  (some raw)
                  2
                  key
                  short
                  (insert max to_string strings m_split (some raw) 2 key value s).1).1
                key
              ≡ ok (owning value))
    at-insert_long value short s free m lt le =
        let (inserts, reads) = at-insert value s free m lt in
        (inserts, reads, at-insert_short value short s free m lt le)
