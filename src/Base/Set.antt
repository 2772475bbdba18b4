-- ===== src/Base/Set.antt =====
-- std::set over a comparator: the elements in the order of iteration.
use mathlib.Core.Path.{◌≡◌, refl}
use mathlib.Core.Bool.{Bool, true, false}
use mathlib.Core.List.{List, [], ◌∷◌}
use native.Mathlib.Omega.{arith}
use plugin_play.Base.Order.{Order, same, same_comm, same_congr}

abbrev when {ℓ} : {A : Type ℓ} → Bool → A → A → A
when true x y = x
when false x y = y

module _ {ℓ} {K : Type ℓ} (o : Order K) where
  unfoldable pub member : K → List K → Bool
  member k [] = false
  member k (j ∷ s) = when (same o j k) true (member k s)

  unfoldable pub place : K → List K → List K
  place k [] = k ∷ []
  place k (j ∷ s) = when (o.less k j) (k ∷ j ∷ s) (j ∷ place k s)

  -- s.insert(k): an element that is there stays.
  unfoldable pub insert : K → List K → List K
  unfolding member place
  insert k s = when (member k s) s (place k s)

  -- s.erase(k)
  unfoldable pub erase : K → List K → List K
  erase k [] = []
  erase k (j ∷ s) = when (same o j k) (erase k s) (j ∷ erase k s)

  member-place : (k j : K) (s : List K) → member j (place k s) ≡ when (same o k j) true (member j s)
  unfolding member place
  member-place k j [] = refl
  member-place k j (i ∷ s) = ground (arith, member-place k j s)

  member_congr : (k j : K) (s : List K) → same o k j ≡ true → member k s ≡ member j s
  unfolding member
  member_congr k j [] h = refl
  member_congr k j (i ∷ s) h =
      ground (arith, member_congr k j s, same_congr o k j i, same_comm o k i, same_comm o j i)

  pub member-insert :
      (k j : K) (s : List K) → member j (insert k s) ≡ when (same o k j) true (member j s)
  unfolding insert
  member-insert k j s = ground (arith, member-place k j s, member_congr k j s)

  pub member-erase :
      (k j : K) (s : List K) → member j (erase k s) ≡ when (same o k j) false (member j s)
  unfolding member erase
  member-erase k j [] = ground arith
  member-erase k j (i ∷ s) = ground (
    arith,
    member-erase k j s,
    same_congr o i k j,
    same_congr o k j i,
    same_comm o k i,
    same_comm o j i,
  )

-- Every element has the property.
abbrev pub All {ℓ ρ} : {K : Type ℓ} → (K → Type ρ) → List K → Type ρ
All P [] = Unit
All P (k ∷ s) = P k × All P s

module _ {ℓ ρ} {K : Type ℓ} (o : Order K) (P : K → Type ρ) where
  place-All : (k : K) (s : List K) → P k → All P s → All P (place o k s)
  unfolding place
  place-All k [] p h = (p, tt)
  place-All k (j ∷ s) p h =
      elim (o.less k j) as (λ b. All P (when b (k ∷ j ∷ s) (j ∷ place o k s))) [
        | true ↦ (p, h)
        | false ↦ (h.0, place-All k s p h.1)
      ]

  pub insert-All : (k : K) (s : List K) → P k → All P s → All P (insert o k s)
  unfolding insert
  insert-All k s p h = elim (member o k s) as (λ b. All P (when b s (place o k s))) [
    | true ↦ h
    | false ↦ place-All k s p h
  ]
