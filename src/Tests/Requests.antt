-- ===== src/Tests/Requests.antt =====
-- A request whose type is changed after its module has got that type too.
use plugin_play.Base.{ℕ, true, ◌≡◌, refl, some, List, [], ◌∷◌}
use plugin_play.Base.Set
use plugin_play.Base.Order.{same, less_nat}
use plugin_play.Base.Result.{ok}
use plugin_play.Types.{Rtti, rtti_same, rtti_equal}
use plugin_play.Module.{Module, write}
use plugin_play.Module.Setters
use plugin_play.Module.Setters.{suitable}
use plugin_play.Module.Requests
use plugin_play.Module.Requests.{satisfies_property_type, value}
use plugin_play.Module.Requests.Calls.{
  Call, set_type, set_module, set_description, add_property_type, run, run-empty-suitable,
}
use plugin_play.Tests.Data.{store, demangle, area_type, int_type}

-- The first set_module is refused, as the request has no type, and the second set_type, as the
-- module does not satisfy it yet.
abbrev calls : List (Call ℕ)
calls =
    set_module (some 0)
    ∷ set_type area_type []
    ∷ set_module (some 0)
    ∷ set_type int_type []
    ∷ set_description "the area"
    ∷ add_property_type 0 int_type
    ∷ set_type int_type []
    ∷ []

run-empty-suitable_example :
    (m : Module ℕ) × (t : Rtti) × (value
        (run demangle store Requests.empty calls).0
        (run demangle store Requests.empty calls).1
      ≡ ok m)
    × (suitable t m.property_types ≡ true)
    × (satisfies_property_type (run demangle store Requests.empty calls).1 t ≡ ok true)
unfolding run Set.member Set.insert same less_nat rtti_same rtti_equal suitable Setters.set_type
    Requests.set_description Setters.set_module Setters.add_property_type write
run-empty-suitable_example = run-empty-suitable demangle store calls 0 refl
