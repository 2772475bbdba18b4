-- ===== src/Any/Equality.antt =====
-- The two comparisons of AnyField and its copies, for types other than PythonWrapper.
use plugin_play.Base.{Bool, true, false, ◌&&◌, ◌≡◌, refl, ap, ◌∙◌, none, some, arith, ==-refl}
use plugin_play.Base.Result.{ok}
use plugin_play.Types.{rtti_same}
use plugin_play.Any.{
  AnyField, Python, Values, IsEquivalence, by_value, any_eq, are_equal, storing_python_object,
  same_storage, copy,
}

module _ {A : Type 0} where
  -- The same value, owned.
  abbrev pub owned : AnyField A → AnyField A
  owned none = none
  owned (some f) = some (record f { storage = by_value })

  -- The fields are stored alike.
  abbrev pub stored_alike : AnyField A → AnyField A → Bool
  stored_alike none none = true
  stored_alike (some f) (some g) =
      same_storage f.storage g.storage && same_storage g.storage f.storage
  stored_alike _ _ = false

module _ {A : Type 0} (py : Python A) where
  -- The field holds no Python object.
  abbrev pub IsNative : AnyField A → Type 0
  IsNative none = Unit
  IsNative (some f) = storing_python_object py f ≡ false

  -- A copy owns the value, also where the original only held a reference.
  pub copy-owned : (a : AnyField A) → IsNative a → copy py a ≡ ok (owned a)
  unfolding copy
  copy-owned none h = refl
  copy-owned (some f) h = ground (arith, ==-refl f.clean.index)

  pub owned-IsNative : (a : AnyField A) → IsNative a → IsNative (owned a)
  unfolding storing_python_object
  owned-IsNative none h = tt
  owned-IsNative (some f) h = h

module _ {A : Type 0} (py : Python A) (vals : Values A) where
  -- The fields have one type, and values that are equal.
  abbrev pub any_alike : AnyField A → AnyField A → Bool
  any_alike none none = true
  any_alike (some f) (some g) = rtti_same g.clean f.clean && vals.eq f.payload g.payload
  any_alike _ _ = false

  pub any_eq-any_alike :
      (x y : AnyField A) → IsNative py x → IsNative py y → any_eq py vals x y ≡ ok (any_alike x y)
  unfolding any_eq rtti_same
  any_eq-any_alike none none h k = refl
  any_eq-any_alike none (some g) h k = refl
  any_eq-any_alike (some f) none h k = refl
  any_eq-any_alike (some f) (some g) h k = ground arith

  module _ (laws : IsEquivalence vals) where
    pub any_alike_refl : (x : AnyField A) → any_alike x x ≡ true
    unfolding rtti_same
    any_alike_refl none = refl
    any_alike_refl (some f) = ground (arith, laws.eq_refl f.payload, ==-refl f.clean.index)

    pub any_alike_comm : (x y : AnyField A) → any_alike x y ≡ any_alike y x
    unfolding rtti_same
    any_alike_comm none none = refl
    any_alike_comm none (some g) = refl
    any_alike_comm (some f) none = refl
    any_alike_comm (some f) (some g) =
        ground (arith, laws.eq_sym f.payload g.payload, laws.eq_sym g.payload f.payload)

    pub any_alike_trans :
        (x y z : AnyField A) → any_alike x y ≡ true → any_alike y z ≡ true → any_alike x z ≡ true
    unfolding rtti_same
    any_alike_trans none none z h k = k
    any_alike_trans none (some g) z h k = absurd cc
    any_alike_trans (some f) none z h k = absurd cc
    any_alike_trans (some f) (some g) none h k = k
    any_alike_trans (some f) (some g) (some i) h k =
        ground (arith, laws.eq_trans f.payload g.payload i.payload)

    any_alike-owned : (a : AnyField A) → any_alike a (owned a) ≡ true
    unfolding rtti_same
    any_alike-owned none = refl
    any_alike-owned (some f) = ground (arith, laws.eq_refl f.payload, ==-refl f.clean.index)

    pub any_eq-owned : (a : AnyField A) → IsNative py a → any_eq py vals a (owned a) ≡ ok true
    any_eq-owned a h =
        any_eq-any_alike a (owned a) h (owned-IsNative py a h) ∙ ap ok (any_alike-owned a)

    are_equal-stored_alike :
        (x y : AnyField A)
        → IsNative py x
        → IsNative py y
        → are_equal py vals x y ≡ ok (any_alike x y && stored_alike x y)
    unfolding are_equal rtti_same
    are_equal-stored_alike none none h k = refl
    are_equal-stored_alike none (some g) h k = refl
    are_equal-stored_alike (some f) none h k = refl
    are_equal-stored_alike (some f) (some g) h k =
        ground
          (arith, laws.eq_sym f.payload g.payload, ==-refl f.clean.index, ==-refl g.clean.index)

    -- Where operator== of the wrapped types is reflexive, symmetric and transitive, and neither
    -- field holds a Python object: operator== of two fields tells, in either order, whether both
    -- are empty or both hold equal values of one type, and are_equal whether they also store them
    -- alike; none of them throws. A copy of a field owns its value, it is equal to the field by
    -- operator==, and by are_equal if the field is empty or owned a modifiable value.
    pub any_eq_agrees :
        (a b : AnyField A)
        → IsNative py a
        → IsNative py b
        → (any_eq py vals a b ≡ ok (any_alike a b))
          × (any_eq py vals b a ≡ ok (any_alike a b))
          × (are_equal py vals a b ≡ ok (any_alike a b && stored_alike a b))
          × (copy py a ≡ ok (owned a))
          × (any_eq py vals a (owned a) ≡ ok true)
          × (are_equal py vals a (owned a) ≡ ok (stored_alike a (owned a)))
    any_eq_agrees a b h k = (
      any_eq-any_alike a b h k,
      any_eq-any_alike b a k h ∙ ap ok (any_alike_comm b a),
      are_equal-stored_alike a b h k,
      copy-owned py a h,
      any_eq-owned a h,
      are_equal-stored_alike a (owned a) h (owned-IsNative py a h)
          ∙ ap (λ e. ok (e && stored_alike a (owned a))) (any_alike-owned a),
    )
