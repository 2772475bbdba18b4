-- ===== src/Tests/Typed.antt =====
-- The theorems on property types, at a concrete one: a square, its side and its area.
use plugin_play.Base.{ℕ, ◌*◌, String, true, false, ◌≡◌, ◌↔◌, refl, some, none, List, [], ◌∷◌, map}
use plugin_play.Base.Map
use plugin_play.Base.Set
use plugin_play.Base.Map.{Map}
use plugin_play.Base.Order.{same, less_nat}
use plugin_play.Base.TextOrder.{text_order, less_text}
use plugin_play.Base.Result.{ok}
use plugin_play.Types.{rtti_same, rtti_equal}
use plugin_play.Fields.ModuleInput.{ModuleInput, passes}
use plugin_play.Fields.ModuleResult as Res
use plugin_play.Fields.ModuleResult.{ModuleResult}
use plugin_play.Module.{Module, ModuleBase, Store, InputMap}
use plugin_play.Module.Setters.{suitable}
use plugin_play.Module.Ready.{ready}
use plugin_play.Module.Lock.{lock}
use plugin_play.Module.Memo.{is_memoizable}
use plugin_play.Module.World.{World, merged}
use plugin_play.Module.Run.Hit.{locked_store}
use plugin_play.PropertyTypes.FieldTuple.{FieldType, FieldTuple, input_element, result_element}
use plugin_play.PropertyTypes.FieldTuple.Union.{IsDistinct, signature}
use plugin_play.PropertyTypes.Wrap.{
  PropertyType, root, derived, inputs, results, wrap_inputs, unwrap_inputs,
}
use plugin_play.PropertyTypes.Wrap.Fields.{results_iff, all_results}
use plugin_play.PropertyTypes.Wrap.RoundTrip.{plain_all, Lacks}
use plugin_play.PropertyTypes.Wrap.Typed.{unwrap_inputs-wrap_inputs}
use plugin_play.PropertyTypes.Declare.{
  satisfies_property_type, or_else, field_of, find-satisfies_property_type,
}
use plugin_play.Module.Setters.{suitable}
use plugin_play.PropertyTypes.RunAs.{run_as, request_run_as, inputs_of}
use plugin_play.PropertyTypes.RunAs.Computes.{run_as-lambda_run, lambda_run}
use plugin_play.Tests.Data.{
  leaf, leaf_request, py, print, demangle, area_base, area_type, int_type, open_input,
}
use plugin_play.Tests.Runs.{or_empty, world}

abbrev int_field : FieldType
int_field = record { clean = int_type; is_cref = false }

abbrev pub open_result : ModuleResult ℕ
open_result = record {
  value = none;
  desc = none;
  type = some int_type;
  type_check = some (Res.type_check py int_type);
}

abbrev pub ins : FieldTuple (ModuleInput ℕ)
ins = record { key = "side"; type = int_field; field = open_input } ∷ []

abbrev pub outs : FieldTuple (ModuleResult ℕ)
outs = record { key = "area"; type = int_field; field = open_result } ∷ []

abbrev pub area : PropertyType ℕ
area = root area_type ins outs

abbrev more_outs : FieldTuple (ModuleResult ℕ)
more_outs = record { key = "error"; type = int_field; field = open_result } ∷ []

-- A property type that is derived from the first, with one more result.
abbrev area_with_error : PropertyType ℕ
area_with_error = derived int_type [] more_outs area

abbrev input_map : InputMap ℕ
input_map = ("name", open_input) ∷ ("side", open_input) ∷ []

unwrap_inputs-wrap_inputs_example :
    (after : InputMap ℕ) × (wrap_inputs text_order
        (input_element text_order print py demangle)
        area
        (plain_all (7 ∷ []))
        input_map
      ≡ (ok tt, after))
    × (unwrap_inputs text_order (input_element text_order print py demangle) area after
        ≡ ok (7 ∷ []))
    × ((k : String)
        → Lacks text_order (input_element text_order print py demangle) k ins
        → Map.find text_order k after ≡ Map.find text_order k input_map)
unfolding Map.find same less_text less_nat inputs rtti_same passes
unwrap_inputs-wrap_inputs_example =
    unwrap_inputs-wrap_inputs text_order print py demangle area (7 ∷ []) input_map ins refl (tt, tt)
      (
        (
          open_input,
          refl,
          record { native = refl; typed = refl; qualified = refl; allowed = refl },
        ),
        tt,
      )

results_iff_example : IsDistinct (all_results area_with_error) ↔ (
    (t : FieldTuple (ModuleResult ℕ)) × (results (result_element py) area_with_error ≡ ok t)
    × (signature t ≡ all_results area_with_error))
results_iff_example = results_iff py area_with_error (tt, (refl, tt), ((refl, tt), (refl, tt)))

-- The area of a square.
abbrev squares : List ℕ → List ℕ
squares = map (λ n. n * n)

abbrev square_base : ModuleBase ℕ
square_base = record area_base {
  inputs = ("side", open_input) ∷ [];
  results = ("area", open_result) ∷ [];
}

abbrev square : Module ℕ
square = record leaf {
  base = some square_base;
  memoizable = false;
  inputs = ("side", open_input) ∷ [];
}

abbrev square_world : World ℕ ℕ
square_world = record world {
  algorithms = λ n ps submods st. (lambda_run world area squares square_base.results ps, st);
}

abbrev store : Store ℕ ℕ
store = record { modules = λ b. some square; caches = 0 }

abbrev given : InputMap ℕ
given = (wrap_inputs text_order (inputs_of square_world) area (plain_all (7 ∷ [])) square.inputs).1

abbrev merged_inputs : InputMap ℕ
merged_inputs = or_empty (
    merged square_world 2 (locked_store square_world 2 0 given store) 0
      (record square { locked = true }) given)

run_as-lambda_run_example :
    (run_as square_world 2 0 area (plain_all (7 ∷ [])) store
      ≡ (ok (squares (7 ∷ [])), locked_store square_world 2 0 given store))
    × (request_run_as square_world 2 leaf_request area (plain_all (7 ∷ [])) store
        ≡ (ok (squares (7 ∷ [])), locked_store square_world 2 0 given store))
unfolding ready lock merged is_memoizable passes inputs results suitable rtti_same rtti_equal
    Map.find same less_text less_nat Res.type_check Res.wrap_value wrap_inputs Set.erase Set.insert
run_as-lambda_run_example =
    run_as-lambda_run square_world area squares 2 0 store square (record square { locked = true })
      square_base (7 ∷ []) given merged_inputs ins outs leaf_request area_type refl refl refl refl
      refl refl refl (tt, tt)
      (
        (
          open_input,
          refl,
          record { native = refl; typed = refl; qualified = refl; allowed = refl },
        ),
        tt,
      )
      refl (tt, tt)
      (
        (
          open_result,
          refl,
          record {
            native = refl;
            typed = refl;
            allowed = (Res.type_check py int_type, refl, refl);
          },
        ),
        tt,
      )
      refl refl refl refl refl refl refl (λ ps st. refl)

find-satisfies_property_type_example :
    (after : ModuleBase ℕ) × (satisfies_property_type text_order
        (input_element text_order print py demangle)
        (result_element py)
        area
        area_base
      ≡ ok after)
    × (suitable area_type after.property_types ≡ true)
    × (Map.find text_order "side" after.inputs
        ≡ or_else (Map.find text_order "side" area_base.inputs) (field_of text_order "side" ins))
    × (Map.find text_order "side" after.results
        ≡ or_else (Map.find text_order "side" area_base.results) (field_of text_order "side" outs))
unfolding inputs results
find-satisfies_property_type_example =
    find-satisfies_property_type text_order (input_element text_order print py demangle)
      (result_element py) area area_base ins outs "side" refl refl
