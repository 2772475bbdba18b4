-- ===== src/Tests/Fields.antt =====
-- The theorems on AnyField, inputs and results, at concrete values.
use plugin_play.Base.{ℕ, true, ◌&&◌, ◌≡◌, refl, some, none, has, List, [], ◌∷◌}
use plugin_play.Base.TextOrder.{text_order}
use plugin_play.Base.Result.{ok}
use plugin_play.Any.{AnyField, by_const_ref, storing_python_object, any_eq, are_equal, copy}
use plugin_play.Any.Equality.{any_eq_agrees, any_alike, stored_alike, owned}
use plugin_play.Fields.ModuleInput
use plugin_play.Fields.ModuleInput.{ModuleInput, set_value, set_type_as, change, empty}
use plugin_play.Fields.ModuleInput.Checks.{IsValid}
use plugin_play.Fields.ModuleInput.Calls
use plugin_play.Fields.ModuleInput.Calls.{run-empty-IsValid}
use plugin_play.Fields.ModuleResult.{ModuleResult}
use plugin_play.Tests.Data.{py, numbers, numbers_laws, int_type, print, seven}

-- The value 7 is bound, and then 3 is written to it through a reference.
abbrev written : List (Calls.Call ℕ)
written =
    Calls.set_type int_type
    ∷ Calls.add_check (λ v. ok (has v)) "There is a value"
    ∷ Calls.set_value seven
    ∷ Calls.write_ref int_type 3
    ∷ []

run-empty-IsValid_example : IsValid (Calls.run text_order print py ModuleInput.empty written)
unfolding Calls.step ModuleInput.value_mut storing_python_object set_value ModuleInput.add_check
    ModuleInput.set_type empty ModuleInput.passes
run-empty-IsValid_example =
    run-empty-IsValid text_order print py written (tt, (tt, (tt, ((refl, tt), tt))))

abbrev open_result : ModuleResult ℕ
open_result = record { value = none; desc = none; type = none; type_check = none }

abbrev bound_result : ModuleResult ℕ
bound_result = record { value = some seven; desc = none; type = some int_type; type_check = none }

-- A field that holds a reference to 7, and one that owns 7.
abbrev by_reference : AnyField ℕ
by_reference = some (record { clean = int_type; storage = by_const_ref; payload = 7 })

any_eq_agrees_example :
    (any_eq py numbers by_reference seven ≡ ok (any_alike py numbers by_reference seven))
    × (any_eq py numbers seven by_reference ≡ ok (any_alike py numbers by_reference seven))
    × (are_equal py numbers by_reference seven
        ≡ ok (any_alike py numbers by_reference seven && stored_alike by_reference seven))
    × (copy py by_reference ≡ ok (owned by_reference))
    × (any_eq py numbers by_reference (owned by_reference) ≡ ok true)
    × (are_equal py numbers by_reference (owned by_reference)
        ≡ ok (stored_alike by_reference (owned by_reference)))
unfolding storing_python_object
any_eq_agrees_example = any_eq_agrees py numbers numbers_laws by_reference seven refl refl
