-- ===== src/Fields/ModuleInput/Bounds.antt =====
-- Bounds checks (cxx/include/pluginplay/fields/bounds_checking) and ModuleInput::add_check of them
-- (cxx/include/pluginplay/fields/module_input.ipp).
pub mod Within
use plugin_play.Base.{String, concat, Bool, ◌&&◌, List, [], ◌∷◌, str_eq, if◌then◌else◌}
use plugin_play.Base.Order.{Order}
use plugin_play.Base.Result.{Result, ok, ◌>>=◌}
use plugin_play.Types.{Rtti}
use plugin_play.Any.{AnyField, Python, Mode, any_cast}
use plugin_play.Fields.ModuleInput.{ModuleInput, AnyCheck, add_check}

-- The operators of the type that is compared, and std::to_string.
pub record Comparable (A : Type 0) : Type 0 where
  pub ne : A → A → Bool
  pub gt : A → A → Bool
  pub lt : A → A → Bool
  pub ge : A → A → Bool
  pub le : A → A → Bool
  pub to_string : A → String

-- The functor of a CompareTo: those of the standard library, and any other.
pub data Comparison (A : Type 0) : Type 0 where
  not_equal_to greater less greater_equal less_equal : Comparison A
  other : (A → A → Bool) → Comparison A

-- CompareTo, InRange (its `high` first), and any other functor.
pub data Bound (A : Type 0) : Type 0 where
  compare_to : Comparison A → A → Bound A
  in_range : A → A → Bound A
  functor : (A → Bool) → Bound A

module _ {A : Type 0} (t : Comparable A) where
  unfoldable pub apply : Comparison A → A → A → Bool
  apply not_equal_to lhs value = t.ne lhs value
  apply greater lhs value = t.gt lhs value
  apply less lhs value = t.lt lhs value
  apply greater_equal lhs value = t.ge lhs value
  apply less_equal lhs value = t.le lhs value
  apply (other op) lhs value = op lhs value

  unfoldable pub sign : Comparison A → String
  sign not_equal_to = "!="
  sign greater = ">"
  sign less = "<"
  sign greater_equal = ">="
  sign less_equal = "<="
  sign (other op) = "<undefined operator> "

  -- operator() of the three
  unfoldable pub holds : Bound A → A → Bool
  unfolding apply
  holds (compare_to op value) x = apply op x value
  holds (in_range high low) x = t.le low x && t.lt x high
  holds (functor check) x = check x

  -- print_bounds
  unfoldable pub print_bounds : Bound A → String
  unfolding sign
  print_bounds (compare_to op value) = concat (concat (sign op) " ") (t.to_string value)
  print_bounds (in_range high low) =
      concat (concat (concat (concat "in [" (t.to_string low)) ", ") (t.to_string high)) ")"
  print_bounds (functor check) = ""

  -- the description of the check: `print_bounds` if the caller gave none
  unfoldable pub described : Bound A → String → String
  unfolding print_bounds
  described (functor check) desc = desc
  described b desc = if str_eq desc "" then print_bounds b else desc

module _ {A : Type 0} (py : Python A) (t : Comparable A) (type : Rtti) where
  -- The any_check that add_check makes of a check of values.
  unfoldable pub any_check : Bound A → AnyCheck A
  unfolding any_cast holds
  any_check b v = do
    x ← any_cast py v (record { clean = type; mode = Mode.value })
    ok (holds t b x)

module _ {A : Type 0} (cim : Order String) (print : AnyField A → String) (py : Python A)
    (t : Comparable A) (type : Rtti) where
  -- ModuleInput::add_check of a bound of type `type`
  unfoldable pub add_bound : ModuleInput A → Bound A → String → Result (ModuleInput A)
  unfolding any_check add_check described
  add_bound i b desc = add_check cim print i (any_check py t type b) (described t b desc)

  -- add_check of one bound after the other
  unfoldable pub add_bounds : ModuleInput A → List (Bound A × String) → Result (ModuleInput A)
  unfolding add_bound
  add_bounds i [] = ok i
  add_bounds i ((b, desc) ∷ bounds) = do j ← add_bound i b desc; add_bounds j bounds
