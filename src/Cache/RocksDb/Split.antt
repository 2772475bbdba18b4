-- ===== src/Cache/RocksDb/Split.antt =====
-- The pieces of a long value.
use plugin_play.Base.{
  ℕ, zero, suc, ◌-◌, ◌≤◌, false, ◌≡◌, refl, subst, ap, List, [], ◌∷◌, ◌++◌, length, ltb, arith, All,
  Bool-cases, inl, inr,
}
use plugin_play.Cache.RocksDb.{take, drop, split_value, is_nil}

module _ {B : Type 0} where
  abbrev pub join : List (List B) → List B
  join [] = []
  join (c ∷ chunks) = c ++ join chunks

  take-drop : (n : ℕ) (v : List B) → take n v ++ drop n v ≡ v
  take-drop n [] = refl
  take-drop zero (x ∷ xs) = refl
  take-drop (suc n) (x ∷ xs) = ap (λ r. x ∷ r) (take-drop n xs)

  append-nil : (v : List B) → v ++ [] ≡ v
  append-nil [] = refl
  append-nil (x ∷ v) = ap (λ r. x ∷ r) (append-nil v)

  length-take : (n : ℕ) (v : List B) → length (take n v) ≤ n
  length-take n [] = omega arith
  length-take zero (x ∷ xs) = omega arith
  length-take (suc n) (x ∷ xs) = omega (arith, length-take n xs)

  length-drop : (n : ℕ) (v : List B) → length (drop n v) ≡ length v - n
  length-drop n [] = omega arith
  length-drop zero (x ∷ xs) = omega arith
  length-drop (suc n) (x ∷ xs) = omega (arith, length-drop n xs)

  is_nil-length : (v : List B) → 1 ≤ length v → is_nil v ≡ false
  is_nil-length [] h = absurd (omega (arith, h))
  is_nil-length (x ∷ xs) h = refl

  is_nil-take : (n : ℕ) (v : List B) → 1 ≤ n → 1 ≤ length v → is_nil (take n v) ≡ false
  is_nil-take n [] h k = absurd (omega (arith, k))
  is_nil-take zero (x ∷ xs) h k = absurd (omega (arith, h))
  is_nil-take (suc n) (x ∷ xs) h k = refl

  -- A piece that can be stored: it is not empty, and not too long.
  abbrev pub IsPiece : ℕ → List B → Type 0
  IsPiece max c = (is_nil c ≡ false) × (length c ≤ max)

  -- The pieces, one after the other, are the value.
  pub split_value-join : (n max : ℕ) (v : List B) → join (split_value n max v) ≡ v
  unfolding split_value
  split_value-join zero max v = append-nil v
  split_value-join (suc n) max v =
      ground (arith, split_value-join n max (drop max v), take-drop max v, append-nil v)

  -- The pieces are not empty and not too long.
  pub split_value_pieces :
      (n max : ℕ) (v : List B)
      → 1 ≤ max
      → 1 ≤ length v
      → length v ≤ n
      → All (IsPiece max) (split_value n max v)
  unfolding split_value
  split_value_pieces zero max v m l k = absurd (omega (arith, l, k))
  split_value_pieces (suc n) max v m l k = elim (Bool-cases (ltb max (length v))) [
    | inr ge ↦
        subst (All (IsPiece max)) {x = v ∷ []} (ground arith)
          ((is_nil-length v l, ground arith), tt)
    | inl lt ↦
        let rest =
          split_value_pieces n max (drop max v) m (ground (arith, length-drop max v))
            (ground (arith, length-drop max v)) in
        subst (All (IsPiece max)) {x = take max v ∷ split_value n max (drop max v)} (ground arith)
          ((is_nil-take max v m l, length-take max v), rest)
  ]

  -- A value that is not empty is split into pieces that are not empty, no longer than the maximum,
  -- which is at least 1, and give the value one after the other; the length of the value is fuel
  -- enough.
  pub split_value_lem :
      (max : ℕ) (v : List B)
      → 1 ≤ max
      → 1 ≤ length v
      → (join (split_value (length v) max v) ≡ v) × All (IsPiece max) (split_value (length v) max v)
  split_value_lem max v m l =
      (split_value-join (length v) max v, split_value_pieces (length v) max v m l (omega arith))
