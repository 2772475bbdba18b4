-- ===== src/Types.antt =====
-- cxx/include/pluginplay/types.hpp: run-time type information and its comparison.
use plugin_play.Base.{ℕ, String, Bool, true, ◌||◌, ◌≡◌, arith, ◌==◌, ==-refl, str_eq}
use plugin_play.Base.Order.{
  Order, less_nat, less_nat-irreflexive, less_nat_trans, less_nat_incomparable,
}

-- std::type_index: the identity of the std::type_info object, and what `name()` returns.
pub record Rtti : Type 0 where
  pub index : ℕ
  pub name : String

-- operator== of std::type_index
unfoldable pub rtti_same : Rtti → Rtti → Bool
rtti_same a b = a.index == b.index

-- type::rtti_equal, which is also met by two copies of one type in different libraries
unfoldable pub rtti_equal : Rtti → Rtti → Bool
unfolding rtti_same
rtti_equal lhs rhs = rtti_same lhs rhs || str_eq lhs.name rhs.name

pub rtti_equal_refl : (a : Rtti) → rtti_equal a a ≡ true
unfolding rtti_equal
rtti_equal_refl a = ground (arith, ==-refl a.index)

-- operator< of std::type_index, by which std::set<rtti> is ordered
abbrev pub rtti_order : Order Rtti
rtti_order = record {
  less = λ a b. less_nat a.index b.index;
  irreflexive = λ a. less_nat-irreflexive a.index;
  transitive = λ a b c. less_nat_trans a.index b.index c.index;
  incomparable = λ a b c. less_nat_incomparable a.index b.index c.index;
}
