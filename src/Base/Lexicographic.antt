-- ===== src/Base/Lexicographic.antt =====
-- operator< of std::pair and of containers, which compare their parts one after the other.
use mathlib.Core.Path.{◌≡◌, refl}
use mathlib.Core.Bool.{Bool, true, false}
use mathlib.Core.List.{List, [], ◌∷◌}
use native.Mathlib.Omega.{arith}
use plugin_play.Base.Order.{Order, IsExact, same}

module _ {K V : Type 0} (o : Order K) (r : Order V) where
  unfoldable pub less_pair : K × V → K × V → Bool
  less_pair (k, v) (j, w) = elim (o.less k j) [
    | true ↦ true
    | false ↦ elim (o.less j k) [ true ↦ false | false ↦ r.less v w ]
  ]

  pub less_pair-irreflexive : (a : K × V) → less_pair a a ≡ false
  unfolding less_pair
  less_pair-irreflexive (k, v) = ground (arith, o.irreflexive k, r.irreflexive v)

  pub less_pair_trans :
      (a b c : K × V) → less_pair a b ≡ true → less_pair b c ≡ true → less_pair a c ≡ true
  unfolding less_pair
  less_pair_trans (k, u) (j, v) (i, w) h l = ground (
    arith,
    o.transitive k j i,
    o.transitive i k j,
    o.transitive j i k,
    o.incomparable k j i,
    o.incomparable i j k,
    o.incomparable k i j,
    o.incomparable j i k,
    o.incomparable j k i,
    o.incomparable i k j,
    r.transitive u v w,
  )

  pub less_pair_incomparable :
      (a b c : K × V)
      → less_pair a b ≡ false
      → less_pair b a ≡ false
      → less_pair b c ≡ false
      → less_pair c b ≡ false
      → less_pair a c ≡ false
  unfolding less_pair
  less_pair_incomparable (k, u) (j, v) (i, w) h l m n = ground (
    arith,
    o.incomparable k j i,
    o.incomparable i j k,
    r.incomparable u v w,
    o.incomparable k i j,
    o.incomparable j i k,
    o.incomparable j k i,
    o.incomparable i k j,
    o.transitive k j i,
    o.transitive k i j,
  )

  abbrev pub pair_order : Order (K × V)
  pair_order = record {
    less = less_pair;
    irreflexive = less_pair-irreflexive;
    transitive = less_pair_trans;
    incomparable = less_pair_incomparable;
  }

  pub pair_order-IsExact : IsExact o → IsExact r → IsExact pair_order
  unfolding less_pair same
  pair_order-IsExact ke ve (k, u) (j, v) h = ground (arith, ke k j, ve u v)

module _ {K : Type 0} (o : Order K) where
  unfoldable pub less_list : List K → List K → Bool
  less_list [] [] = false
  less_list [] (y ∷ ys) = true
  less_list (x ∷ xs) [] = false
  less_list (x ∷ xs) (y ∷ ys) =
      let rest = less_list xs ys in
      elim (o.less x y) [ true ↦ true | false ↦ elim (o.less y x) [ true ↦ false | false ↦ rest ] ]

  pub less_list-irreflexive : (a : List K) → less_list a a ≡ false
  unfolding less_list
  less_list-irreflexive [] = refl
  less_list-irreflexive (x ∷ xs) = ground (arith, o.irreflexive x, less_list-irreflexive xs)

  pub less_list_trans :
      (a b c : List K) → less_list a b ≡ true → less_list b c ≡ true → less_list a c ≡ true
  unfolding less_list
  less_list_trans [] [] c h k = k
  less_list_trans [] (y ∷ t) [] h k = k
  less_list_trans [] (y ∷ t) (z ∷ u) h k = refl
  less_list_trans (x ∷ s) [] c h k = ground arith
  less_list_trans (x ∷ s) (y ∷ t) [] h k = k
  less_list_trans (x ∷ s) (y ∷ t) (z ∷ u) h k = ground (
    arith,
    less_list_trans s t u,
    o.transitive x y z,
    o.transitive z x y,
    o.transitive y z x,
    o.incomparable x y z,
    o.incomparable z y x,
    o.incomparable x z y,
    o.incomparable y z x,
    o.incomparable y x z,
    o.incomparable z x y,
  )

  pub less_list_incomparable :
      (a b c : List K)
      → less_list a b ≡ false
      → less_list b a ≡ false
      → less_list b c ≡ false
      → less_list c b ≡ false
      → less_list a c ≡ false
  unfolding less_list
  less_list_incomparable [] [] c h i j k = j
  less_list_incomparable [] (y ∷ t) c h i j k = absurd (ground arith)
  less_list_incomparable (x ∷ s) [] c h i j k = absurd (ground arith)
  less_list_incomparable (x ∷ s) (y ∷ t) [] h i j k = refl
  less_list_incomparable (x ∷ s) (y ∷ t) (z ∷ u) h i j k =
      ground (arith, less_list_incomparable s t u, o.incomparable x y z, o.incomparable z y x)

  abbrev pub list_order : Order (List K)
  list_order = record {
    less = less_list;
    irreflexive = less_list-irreflexive;
    transitive = less_list_trans;
    incomparable = less_list_incomparable;
  }

  pub list_order-IsExact : IsExact o → IsExact list_order
  unfolding less_list same
  list_order-IsExact e [] [] h = refl
  list_order-IsExact e [] (y ∷ ys) h = absurd (ground arith)
  list_order-IsExact e (x ∷ xs) [] h = absurd (ground arith)
  list_order-IsExact e (x ∷ xs) (y ∷ ys) h = ground (arith, e x y, list_order-IsExact e xs ys)
