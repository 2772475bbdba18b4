-- ===== src/Base/Map.antt =====
-- std::map and utilities::CaseInsensitiveMap over a comparator `o`: the entries in the order of
-- iteration.
pub mod Distinct
use mathlib.Core.Path.{◌≡◌, refl, subst}
use mathlib.Core.Bool.{Bool, true, false}
use mathlib.Core.Logic.{◌⊎◌, inl, inr}
use mathlib.Core.Option.{Option, none, some}
use mathlib.Core.List.{List, [], ◌∷◌}
use native.Mathlib.Omega.{arith}
use plugin_play.Base.Result.{Result, Error, or_throw}
use plugin_play.Base.Order.{Order, same, same_refl, same_comm, same_congr}
use plugin_play.Base.Set.{All}

abbrev pub Map {ℓ κ} : Type ℓ → Type κ → Type (ℓ ⊔ κ)
Map K V = List (K × V)

abbrev when {ℓ} : {A : Type ℓ} → Bool → A → A → A
when true x y = x
when false x y = y

module _ {ℓ κ} {K : Type ℓ} {V : Type κ} where
  abbrev pub keys : Map K V → List K
  keys [] = []
  keys ((k, v) ∷ m) = k ∷ keys m

  abbrev pub values : Map K V → List V
  values [] = []
  values ((k, v) ∷ m) = v ∷ values m

module _ {ℓ κ} {K : Type ℓ} {V : Type κ} (o : Order K) where
  unfoldable pub find : K → Map K V → Option V
  find k [] = none
  find k ((j, v) ∷ m) = when (same o j k) (some v) (find k m)

  -- m.count(k)
  abbrev pub count : K → Map K V → Bool
  count k m = elim (find k m) [ none ↦ false | some v ↦ true ]

  -- m.at(k)
  abbrev pub at : K → Map K V → Error → Result V
  at k m e = or_throw (find k m) e

  -- A new entry goes before the first one with a greater key.
  unfoldable pub place : K → V → Map K V → Map K V
  place k v [] = (k, v) ∷ []
  place k v ((j, w) ∷ m) = when (o.less k j) ((k, v) ∷ (j, w) ∷ m) ((j, w) ∷ place k v m)

  -- m.emplace(k, v): an entry that is there stays.
  unfoldable pub emplace : K → V → Map K V → Map K V
  unfolding find place
  emplace k v m = when (count k m) m (place k v m)

  replace : K → V → Map K V → Map K V
  replace k v [] = []
  replace k v ((j, w) ∷ m) = when (same o j k) ((j, v) ∷ m) ((j, w) ∷ replace k v m)

  -- m[k] = v: an entry that is there gets the value and keeps its key.
  unfoldable pub assign : K → V → Map K V → Map K V
  unfolding find place replace
  assign k v m = when (count k m) (replace k v m) (place k v m)

  -- m.erase(k)
  unfoldable pub erase : K → Map K V → Map K V
  erase k [] = []
  erase k ((j, w) ∷ m) = when (same o j k) (erase k m) ((j, w) ∷ erase k m)

  pub find_congr : (k j : K) (m : Map K V) → same o k j ≡ true → find k m ≡ find j m
  unfolding find
  find_congr k j [] h = refl
  find_congr k j ((i, w) ∷ m) h =
      ground (arith, find_congr k j m, same_congr o k j i, same_comm o k i, same_comm o j i)

  find-place :
      (k j : K) (v : V) (m : Map K V)
      → find k m ≡ none
      → find j (place k v m) ≡ when (same o k j) (some v) (find j m)
  unfolding find place
  find-place k j v [] h = refl
  find-place k j v ((i, w) ∷ m) h =
      ground (arith, find-place k j v m, same_congr o k j i, same_comm o k i, same_comm o j i)

  find-replace :
      (k j : K) (v : V) (m : Map K V)
      → count k m ≡ true
      → find j (replace k v m) ≡ when (same o k j) (some v) (find j m)
  unfolding find replace
  find-replace k j v [] h = cc
  find-replace k j v ((i, w) ∷ m) h = ground (
    arith,
    find-replace k j v m,
    same_congr o k j i,
    same_congr o i k j,
    same_comm o k i,
    same_comm o j i,
  )

  pub find-assign :
      (k j : K) (v : V) (m : Map K V)
      → find j (assign k v m) ≡ when (same o k j) (some v) (find j m)
  unfolding assign
  find-assign k j v m = ground (arith, find-place k j v m, find-replace k j v m)

  pub find-emplace :
      (k j : K) (v : V) (m : Map K V)
      → find j (emplace k v m)
        ≡ elim (find k m) [ none ↦ when (same o k j) (some v) (find j m) | some w ↦ find j m ]
  unfolding emplace
  find-emplace k j v m = ground (arith, find-place k j v m)

  pub find-erase : (k j : K) (m : Map K V) → find j (erase k m) ≡ when (same o k j) none (find j m)
  unfolding find erase
  find-erase k j [] = ground arith
  find-erase k j ((i, w) ∷ m) = ground (
    arith,
    find-erase k j m,
    same_congr o i k j,
    same_congr o k j i,
    same_comm o k i,
    same_comm o j i,
  )

-- The map with each value changed
abbrev pub map_values {ℓ κ} : {K : Type ℓ} {V : Type κ} → (V → V) → Map K V → Map K V
map_values f [] = []
map_values f ((k, v) ∷ m) = (k, f v) ∷ map_values f m

-- Every value has the property.
abbrev pub AllValues {ℓ κ ρ} : {K : Type ℓ} {V : Type κ} → (V → Type ρ) → Map K V → Type ρ
AllValues P [] = Unit
AllValues P ((k, v) ∷ m) = P v × AllValues P m

module _ {ℓ κ ρ} {K : Type ℓ} {V : Type κ} (o : Order K) (P : V → Type ρ) where
  place-AllValues :
      (k : K) (v : V) (m : Map K V) → P v → AllValues P m → AllValues P (place o k v m)
  unfolding place
  place-AllValues k v [] p h = (p, tt)
  place-AllValues k v ((j, w) ∷ m) p h =
      elim (o.less k j)
        as (λ b. AllValues P (when b ((k, v) ∷ (j, w) ∷ m) ((j, w) ∷ place o k v m))) [
          | true ↦ (p, h)
          | false ↦ (h.0, place-AllValues k v m p h.1)
        ]

  pub emplace-AllValues :
      (k : K) (v : V) (m : Map K V) → P v → AllValues P m → AllValues P (emplace o k v m)
  unfolding emplace
  emplace-AllValues k v m p h =
      elim (count o k m) as (λ b. AllValues P (when b m (place o k v m))) [
        | true ↦ h
        | false ↦ place-AllValues k v m p h
      ]

pub AllValues-map {ℓ κ ρ τ} :
    {K : Type ℓ} {V : Type κ} (P : V → Type ρ) (Q : V → Type τ)
    → ((v : V) → P v → Q v)
    → (m : Map K V) → AllValues P m
    → AllValues Q m
AllValues-map P Q f [] h = tt
AllValues-map P Q f ((k, v) ∷ m) (p, h) = (f v p, AllValues-map P Q f m h)

bool_cases : (b : Bool) → (b ≡ true) ⊎ (b ≡ false)
bool_cases true = inl refl
bool_cases false = inr refl

module _ {ℓ κ ρ} {K : Type ℓ} {V : Type κ} (o : Order K) (P : K → Type ρ) where
  place-AllKeys :
      (k : K) (v : V) (m : Map K V) → P k → All P (keys m) → All P (keys (place o k v m))
  unfolding place
  place-AllKeys k v [] p h = (p, tt)
  place-AllKeys k v ((j, w) ∷ m) p h =
      elim (o.less k j)
        as (λ b. All P (keys (when b ((k, v) ∷ (j, w) ∷ m) ((j, w) ∷ place o k v m)))) [
          | true ↦ (p, h)
          | false ↦ (h.0, place-AllKeys k v m p h.1)
        ]

  replace-AllKeys : (k : K) (v : V) (m : Map K V) → All P (keys m) → All P (keys (replace o k v m))
  unfolding replace
  replace-AllKeys k v [] h = tt
  replace-AllKeys k v ((j, w) ∷ m) h =
      elim (same o j k) as (λ b. All P (keys (when b ((j, v) ∷ m) ((j, w) ∷ replace o k v m)))) [
        | true ↦ h
        | false ↦ (h.0, replace-AllKeys k v m h.1)
      ]

  -- The keys after an assignment are those that were there and the key.
  pub assign-AllKeys :
      (k : K) (v : V) (m : Map K V) → P k → All P (keys m) → All P (keys (assign o k v m))
  unfolding assign
  assign-AllKeys k v m p h =
      elim (count o k m) as (λ b. All P (keys (when b (replace o k v m) (place o k v m)))) [
        | true ↦ replace-AllKeys k v m h
        | false ↦ place-AllKeys k v m p h
      ]

  -- A key that is found has the property, if a key that is the same key has it too.
  pub find-AllKeys :
      (k : K) (v : V) (m : Map K V)
      → ((j : K) → same o j k ≡ true → P j → P k)
      → All P (keys m)
      → find o k m ≡ some v
      → P k
  unfolding find
  find-AllKeys k v [] f h e = absurd cc
  find-AllKeys k v ((j, w) ∷ m) f h e = elim (bool_cases (same o j k)) [
    | inl s ↦ f j s h.0
    | inr s ↦ find-AllKeys k v m f h.1 (ground arith)
  ]

module _ {ℓ κ} {K : Type ℓ} {V : Type κ} (o : Order K) where
  keys_weaken :
      (j : K) (w : V) (m : Map K V) (ks : List K)
      → All (λ k. count o k m ≡ true) ks
      → All (λ k. count o k ((j, w) ∷ m) ≡ true) ks
  unfolding find
  keys_weaken j w m [] h = tt
  keys_weaken j w m (k ∷ ks) (h, hs) = (ground (arith, h), keys_weaken j w m ks hs)

  -- Every key of a map is found.
  pub count-keys : (m : Map K V) → All (λ k. count o k m ≡ true) (keys m)
  unfolding find
  count-keys [] = tt
  count-keys ((j, w) ∷ m) =
      (ground (arith, same_refl o j), keys_weaken j w m (keys m) (count-keys m))

  keys-replace : (k : K) (v : V) (m : Map K V) → keys (replace o k v m) ≡ keys m
  unfolding replace
  keys-replace k v [] = refl
  keys-replace k v ((j, w) ∷ m) = ground (arith, keys-replace k v m)

  -- An assignment to a key that is there keeps the keys.
  pub keys-assign :
      (k : K) (v : V) (m : Map K V) → count o k m ≡ true → keys (assign o k v m) ≡ keys m
  unfolding assign
  keys-assign k v m h = ground (arith, keys-replace k v m)

-- A value that is found has the property.
pub find-AllValues {ℓ κ ρ} :
    {K : Type ℓ} {V : Type κ} (o : Order K) (P : V → Type ρ) (k : K) (v : V) (m : Map K V)
    → AllValues P m
    → find o k m ≡ some v
    → P v
unfolding find
find-AllValues o P k v [] h e = absurd cc
find-AllValues o P k v ((j, w) ∷ m) (p, h) e = elim (bool_cases (same o j k)) [
  | inl s ↦ subst P (ground arith) p
  | inr s ↦ find-AllValues o P k v m h (ground arith)
]
