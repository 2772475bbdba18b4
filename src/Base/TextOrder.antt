-- ===== src/Base/TextOrder.antt =====
-- The order of texts by the numbers of their characters, `std::less<std::string>`.
use Prim.Native.String.{String, [], ◌∷◌}
use Prim.Native.Char.{code}
use Prim.Native.Nat.{ℕ}
use mathlib.Core.Path.{◌≡◌, refl}
use mathlib.Core.Bool.{Bool, true, false, ◌||◌}
use native.Mathlib.Omega.{arith}
use text.Mathlib.TextEquality.{Char-path}
use plugin_play.Base.Order.{Order, IsExact, same, less_nat}

unfoldable pub less_text : String → String → Bool
less_text [] [] = false
less_text [] (d ∷ t) = true
less_text (c ∷ s) [] = false
less_text (c ∷ s) (d ∷ t) =
    less_nat (code c) (code d)
    || (elim (less_nat (code d) (code c)) [ true ↦ false | false ↦ less_text s t ])

pub less_text-irreflexive : (a : String) → less_text a a ≡ false
unfolding less_text less_nat
less_text-irreflexive [] = refl
less_text-irreflexive (c ∷ s) = ground (arith, less_text-irreflexive s)

pub less_text_trans :
    (a b c : String) → less_text a b ≡ true → less_text b c ≡ true → less_text a c ≡ true
unfolding less_text less_nat
less_text_trans [] [] c h k = k
less_text_trans [] (y ∷ t) [] h k = k
less_text_trans [] (y ∷ t) (z ∷ u) h k = refl
less_text_trans (x ∷ s) [] c h k = ground arith
less_text_trans (x ∷ s) (y ∷ t) [] h k = k
less_text_trans (x ∷ s) (y ∷ t) (z ∷ u) h k = ground (arith, less_text_trans s t u)

pub less_text_incomparable :
    (a b c : String)
    → less_text a b ≡ false
    → less_text b a ≡ false
    → less_text b c ≡ false
    → less_text c b ≡ false
    → less_text a c ≡ false
unfolding less_text less_nat
less_text_incomparable [] [] c h i j k = j
less_text_incomparable [] (y ∷ t) c h i j k = ground arith
less_text_incomparable (x ∷ s) [] c h i j k = ground arith
less_text_incomparable (x ∷ s) (y ∷ t) [] h i j k = refl
less_text_incomparable (x ∷ s) (y ∷ t) (z ∷ u) h i j k =
    ground (arith, less_text_incomparable s t u)

abbrev pub text_order : Order String
text_order = record {
  less = less_text;
  irreflexive = less_text-irreflexive;
  transitive = less_text_trans;
  incomparable = less_text_incomparable;
}

less_nat-same : (a b : ℕ) → less_nat a b ≡ false → less_nat b a ≡ false → a ≡ b
unfolding less_nat
less_nat-same a b h k = ground arith

pub text_order-IsExact : IsExact text_order
unfolding less_text same
text_order-IsExact [] [] h = refl
text_order-IsExact [] (d ∷ t) h = absurd (ground arith)
text_order-IsExact (c ∷ s) [] h = absurd (ground arith)
text_order-IsExact (c ∷ s) (d ∷ t) h =
    ground (arith, less_nat-same (code c) (code d), Char-path c d, text_order-IsExact s t)
