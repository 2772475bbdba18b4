-- ===== src/Tests/Facades.antt =====
-- A facade module at a concrete property type.
use plugin_play.Base.{ℕ, true, ◌≡◌, refl, some, [], ◌∷◌}
use plugin_play.Base.Map
use plugin_play.Base.Set
use plugin_play.Base.Order.{same, less_nat}
use plugin_play.Base.TextOrder.{text_order, less_text}
use plugin_play.Base.Result.{Result, ok, err}
use plugin_play.Types.{Rtti, rtti_same}
use plugin_play.Fields.ModuleInput
use plugin_play.Fields.ModuleInput.{passes}
use plugin_play.Fields.ModuleResult as Res
use plugin_play.Module.{Module, InputMap, ResultMap, Store, write}
use plugin_play.Module.World.{World}
use plugin_play.PropertyTypes.Wrap.{inputs, results, wrap_inputs, wrap_results}
use plugin_play.PropertyTypes.Wrap.RoundTrip.{plain_all}
use plugin_play.PropertyTypes.Declare.{insert_fields}
use plugin_play.PropertyTypes.RunAs.{run_as, inputs_of, results_of}
use plugin_play.PropertyTypes.Facade.{make_facade}
use plugin_play.PropertyTypes.Facade.Returns.{facade_of, facade_results, run_as-make_facade}
use plugin_play.Tests.Data.{leaf, py, int_type, open_input, area_type}
use plugin_play.Tests.Runs.{world}
use plugin_play.Module.Setters.{suitable}
use plugin_play.Tests.Typed.{area, ins, outs, open_result}

abbrev facade_type : Rtti
facade_type = record { index = 31; name = "FacadeModule<Area>" }

-- The module and its results, for the area 49.
abbrev made : Result (Module ℕ × ResultMap ℕ)
made =
    make_facade text_order (inputs_of world) (results_of world) area facade_type 0
      (plain_all (49 ∷ []))

abbrev or_default : Result (Module ℕ × ResultMap ℕ) → Module ℕ × ResultMap ℕ
or_default (ok both) = both
or_default (err e) = (leaf, [])

abbrev facade : Module ℕ
facade = (or_default made).0

abbrev facade_world : World ℕ ℕ
facade_world = record world { algorithms = λ n ps submods st. (ok (or_default made).1, st) }

abbrev store : Store ℕ ℕ
store = record { modules = λ b. some facade; caches = 0 }

abbrev given : InputMap ℕ
given = (wrap_inputs text_order (inputs_of world) area (plain_all (7 ∷ [])) facade.inputs).1

run_as-make_facade_example :
    (make_facade text_order
        (inputs_of facade_world)
        (results_of facade_world)
        area
        facade_type
        0
        (plain_all (49 ∷ []))
      ≡ ok (
        facade_of facade_world area facade_type 0 ins outs,
        facade_results facade_world area facade_type 0 outs (49 ∷ []),
      ))
    × (suitable area_type (facade_of facade_world area facade_type 0 ins outs).property_types
        ≡ true)
    × (run_as facade_world 2 0 area (plain_all (7 ∷ [])) store ≡ (
      ok (49 ∷ []),
      write store 0 (record (facade_of facade_world area facade_type 0 ins outs) { locked = true }),
    ))
unfolding passes inputs results rtti_same make_facade insert_fields Map.find same less_text less_nat
    Res.type_check Res.wrap_value wrap_inputs Set.insert wrap_results Res.change ModuleInput.change
    ModuleInput.is_ready
run_as-make_facade_example =
    run_as-make_facade facade_world area facade_type 0 1 0 store (7 ∷ []) (49 ∷ []) ins outs given
      refl refl (tt, tt)
      (
        (
          open_input,
          refl,
          record { native = refl; typed = refl; qualified = refl; allowed = refl },
        ),
        tt,
      )
      refl (tt, tt)
      (
        (
          open_result,
          refl,
          record {
            native = refl;
            typed = refl;
            allowed = (Res.type_check py int_type, refl, refl);
          },
        ),
        tt,
      )
      refl refl refl (λ ps submods s. refl)
