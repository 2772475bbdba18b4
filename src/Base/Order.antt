-- ===== src/Base/Order.antt =====
-- The comparator of an ordered container: a strict weak order, as std::map and std::set ask for.
use Prim.Native.Nat.{ℕ, compare, Ordering}
use mathlib.Core.Path.{◌≡◌}
use mathlib.Core.Bool.{Bool, true, false, not}
use native.Mathlib.Omega.{arith}

pub record Order {ℓ} (K : Type ℓ) : Type ℓ where
  pub less : K → K → Bool
  pub irreflexive : (a : K) → less a a ≡ false
  pub transitive : (a b c : K) → less a b ≡ true → less b c ≡ true → less a c ≡ true
  pub incomparable :
      (a b c : K)
      → less a b ≡ false
      → less b a ≡ false
      → less b c ≡ false
      → less c b ≡ false
      → less a c ≡ false

module _ {ℓ} {K : Type ℓ} (o : Order K) where
  -- Two keys are the same key of a container if neither comes before the other.
  unfoldable pub same : K → K → Bool
  same a b = elim (o.less a b) [ true ↦ false | false ↦ not (o.less b a) ]

  pub same_refl : (a : K) → same a a ≡ true
  unfolding same
  same_refl a = ground (arith, o.irreflexive a)

  pub same_comm : (a b : K) → same a b ≡ same b a
  unfolding same
  same_comm a b = ground arith

  pub same_trans : (a b c : K) → same a b ≡ true → same b c ≡ true → same a c ≡ true
  unfolding same
  same_trans a b c h k = ground (arith, o.incomparable a b c, o.incomparable c b a)

  -- The same key is the same to every other key.
  pub same_congr : (a b c : K) → same a b ≡ true → same a c ≡ same b c
  same_congr a b c h = ground (arith, same_comm a b, same_trans a b c, same_trans b a c)

-- Keys that are the same key are equal.
abbrev pub IsExact : {K : Type 0} → Order K → Type 0
IsExact {K} o = (a b : K) → same o a b ≡ true → a ≡ b

-- The order of numbers, `std::less`.
unfoldable pub less_nat : ℕ → ℕ → Bool
less_nat a b = elim (compare a b) [ Ordering.lt ↦ true | _ ↦ false ]

pub less_nat-irreflexive : (a : ℕ) → less_nat a a ≡ false
unfolding less_nat
less_nat-irreflexive a = ground arith

pub less_nat_trans : (a b c : ℕ) → less_nat a b ≡ true → less_nat b c ≡ true → less_nat a c ≡ true
unfolding less_nat
less_nat_trans a b c h k = ground arith

pub less_nat_incomparable :
    (a b c : ℕ)
    → less_nat a b ≡ false
    → less_nat b a ≡ false
    → less_nat b c ≡ false
    → less_nat c b ≡ false
    → less_nat a c ≡ false
unfolding less_nat
less_nat_incomparable a b c h i j k = ground arith

abbrev pub nat_order : Order ℕ
nat_order = record {
  less = less_nat;
  irreflexive = less_nat-irreflexive;
  transitive = less_nat_trans;
  incomparable = less_nat_incomparable;
}
