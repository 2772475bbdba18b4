-- ===== src/Base/Map/Distinct.antt =====
-- Maps whose keys are pairwise different keys, and the keys of two such maps of the same size.
use plugin_play.Base.{
  suc, ◌≡◌, refl, subst, true, none, [], ◌∷◌, length, arith, Bool-cases, inl, inr,
}
use plugin_play.Base.Order.{Order, same, same_refl}
use plugin_play.Base.Map.{Map, find, count, erase, find-erase, find_congr}

module _ {K V : Type 0} (o : Order K) where
  abbrev pub IsDistinct : Map K V → Type 0
  IsDistinct [] = Unit
  IsDistinct ((k, v) ∷ m) = (find o k m ≡ none) × IsDistinct m

  length-erase-none : (k : K) (m : Map K V) → find o k m ≡ none → length (erase o k m) ≡ length m
  unfolding find erase
  length-erase-none k [] h = refl
  length-erase-none k ((j, w) ∷ m) h = elim (Bool-cases (same o j k)) [
    | inl s ↦ absurd (ground arith)
    | inr s ↦ ground (arith, length-erase-none k m)
  ]

  length-erase :
      (k : K) (m : Map K V)
      → IsDistinct m
      → count o k m ≡ true
      → suc (length (erase o k m)) ≡ length m
  unfolding find erase
  length-erase k [] d h = absurd (ground arith)
  length-erase k ((j, w) ∷ m) (new, d) h = elim (Bool-cases (same o j k)) [
    | inl s ↦ ground (arith, length-erase-none k m, find_congr o j k m)
    | inr s ↦ ground (arith, length-erase k m d)
  ]

  erase-IsDistinct : (k : K) (m : Map K V) → IsDistinct m → IsDistinct (erase o k m)
  unfolding erase
  erase-IsDistinct k [] d = tt
  erase-IsDistinct k ((j, w) ∷ m) (new, d) = elim (Bool-cases (same o j k)) [
    | inl s ↦ subst IsDistinct {x = erase o k m} (ground arith) (erase-IsDistinct k m d)
    | inr s ↦
        subst IsDistinct {x = (j, w) ∷ erase o k m} (ground arith)
          (ground (arith, find-erase o k j m, new), erase-IsDistinct k m d)
  ]

  -- A map that has every key of another map of the same size has no other keys.
  pub count-same_size :
      (lhs rhs : Map K V)
      → IsDistinct lhs
      → IsDistinct rhs
      → length lhs ≡ length rhs
      → ((k : K) → count o k rhs ≡ true → count o k lhs ≡ true)
      → (k : K) → count o k lhs ≡ count o k rhs
  unfolding find
  count-same_size [] [] d e size has k = refl
  count-same_size ((j, w) ∷ lhs) [] d e size has k = absurd (omega (arith, size))
  count-same_size lhs ((j, w) ∷ rhs) d (new, e) size has k =
      let there : count o j lhs ≡ true = has j (ground (arith, same_refl o j)) in
      let deeper =
        count-same_size (erase o j lhs) rhs (erase-IsDistinct j lhs d) e
          (omega (arith, size, length-erase j lhs d there))
          (λ i h. ground (arith, has i, find-erase o j i lhs, find_congr o j i rhs, h)) k in
      ground (arith, deeper, find-erase o j k lhs, find_congr o j k lhs)
