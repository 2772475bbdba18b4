-- ===== src/Module/Setters/Suitable.antt =====
-- The set of a module's property types, which is ordered by type_index and searched by rtti_equal.
use plugin_play.Base.{true, ◌≡◌, List, [], ◌∷◌, arith}
use plugin_play.Base.Order.{same, less_nat}
use plugin_play.Base.Set
use plugin_play.Types.{Rtti, rtti_equal, rtti_equal_refl, rtti_same, rtti_order}
use plugin_play.Module.Setters.{suitable}

suitable-place : (t : Rtti) (types : List Rtti) → suitable t (Set.place rtti_order t types) ≡ true
unfolding suitable Set.place
suitable-place t [] = ground (arith, rtti_equal_refl t)
suitable-place t (u ∷ types) = ground (arith, rtti_equal_refl t, suitable-place t types)

pub suitable-member :
    (t : Rtti) (types : List Rtti) → Set.member rtti_order t types ≡ true → suitable t types ≡ true
unfolding suitable Set.member same less_nat rtti_same rtti_equal
suitable-member t [] h = absurd (ground arith)
suitable-member t (u ∷ types) h = ground (arith, suitable-member t types)

pub suitable-insert :
    (t : Rtti) (types : List Rtti) → suitable t (Set.insert rtti_order t types) ≡ true
unfolding Set.insert
suitable-insert t types = ground (arith, suitable-member t types, suitable-place t types)

suitable-place_more :
    (t u : Rtti) (types : List Rtti)
    → suitable t types ≡ true
    → suitable t (Set.place rtti_order u types) ≡ true
unfolding suitable Set.place
suitable-place_more t u [] h = absurd (ground arith)
suitable-place_more t u (v ∷ types) h = ground (arith, suitable-place_more t u types)

pub suitable-insert_more :
    (t u : Rtti) (types : List Rtti)
    → suitable t types ≡ true
    → suitable t (Set.insert rtti_order u types) ≡ true
unfolding Set.insert
suitable-insert_more t u types h = ground (arith, suitable-place_more t u types)
