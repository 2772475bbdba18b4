-- ===== src/Tests/Bounds.antt =====
-- The theorem on bounds, at an input of numbers.
use plugin_play.Base.{ℕ, String, true, false, not, ◌≡◌, refl, [], ◌∷◌, List, ◌&&◌, ◌==◌, ltb, leb}
use plugin_play.Base.Map.{find}
use plugin_play.Base.TextOrder.{text_order, less_text}
use plugin_play.Base.Order.{same, less_nat}
use plugin_play.Base.Result.{has_ok, ◌>>=◌}
use plugin_play.Types.{rtti_same}
use plugin_play.Fields.ModuleInput.{change}
use plugin_play.Fields.ModuleInput.Bounds.{
  Bound, Comparable, compare_to, in_range, greater, add_bounds, holds, print_bounds, described,
}
use plugin_play.Fields.ModuleInput.Bounds.Within.{change-add_bounds, all_hold}
use plugin_play.Tests.Data.{py, int_type, print, demangle, open_input}

abbrev naturals : Comparable ℕ
naturals = record {
  ne = λ a b. not (a == b);
  gt = λ a b. ltb b a;
  lt = ltb;
  ge = λ a b. leb b a;
  le = leb;
  to_string = λ a. "n";
}

abbrev small : List (Bound ℕ × String)
small = (in_range 10 2, "") ∷ (compare_to greater 6, "") ∷ []

change-add_bounds_example :
    has_ok (add_bounds text_order print py naturals int_type open_input small) ≡ true
    × has_ok (
        add_bounds text_order print py naturals int_type open_input small >>= λ j.
        change text_order print py demangle j false int_type 7)
      ≡ has_ok (change text_order print py demangle open_input false int_type 7)
        && all_hold naturals small 7
unfolding rtti_same same less_text less_nat described print_bounds find
change-add_bounds_example =
    change-add_bounds text_order naturals print py demangle int_type false refl open_input small 7
      refl ((refl, tt), (tt, tt)) (refl, (refl, tt))

-- 7 lies within the bounds.
small-7 : all_hold naturals small 7 ≡ true
unfolding all_hold holds
small-7 = refl
