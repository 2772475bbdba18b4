-- ===== src/Cache/Memory/Equality.antt =====
-- AnyField::operator== as the caches need it.
use plugin_play.Any.{Python, Values, IsEquivalence, any_eq}
use plugin_play.Any.Equality.{
  IsNative, any_alike, any_eq-any_alike, any_alike_refl, any_alike_comm, any_alike_trans,
}
use plugin_play.Cache.Memory.Table.{IsEquality}

module _ {A : Type 0} (py : Python A) (vals : Values A) where
  -- The test of the caches is an equality on fields without Python objects.
  pub any_eq-IsEquality :
      IsEquivalence vals → IsEquality (any_eq py vals) (any_alike py vals) (IsNative py)
  any_eq-IsEquality laws = record {
    total = any_eq-any_alike py vals;
    reflexive = any_alike_refl py vals laws;
    symmetric = any_alike_comm py vals laws;
    transitive = any_alike_trans py vals laws;
  }
