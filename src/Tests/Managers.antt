-- ===== src/Tests/Managers.antt =====
-- The theorems on the module manager, at a concrete manager.
use plugin_play.Base.{ℕ, String, false, ◌≡◌, refl, some, none, [], ◌∷◌, if◌then◌else◌, arith}
use plugin_play.Base.Order.{same, less_nat}
use plugin_play.Base.Map.{find, count}
use plugin_play.Base.TextOrder.{text_order, less_text}
use plugin_play.Base.Result.{ok, err}
use plugin_play.Types.{rtti_order}
use plugin_play.ModuleManager.Equal.{manager_eq}
use plugin_play.ModuleManager.Equal.Agrees.{manager_eq-agrees, SameModule}
use plugin_play.Module.{Module}
use plugin_play.ModuleManager.{Manager, has_key, rename_module, at}
use plugin_play.ModuleManager.Keys.{find-rename_module}
use plugin_play.Any.{storing_python_object}
use plugin_play.Module.Setters.{unlocked_copy}
use plugin_play.Module.Copy.Owned.{owned_module}
use plugin_play.ModuleManager.Dangling.{at-rename_module, no_module}
use plugin_play.ModuleManager.Complete.{at-IsFilled}
use plugin_play.Module.Ready.{ready}
use plugin_play.Tests.Data.{
  caller, leaf_request, demangle, area_base, area_type, leaf, asker, open_request, store, py,
  numbers, open_input,
}

abbrev pub new_uuid : ℕ → String
new_uuid n = "uuid"

abbrev pub new_cache : ℕ → String → ℕ → ℕ
new_cache p key c = 0

-- "Square" leads to `leaf` and "Cone" to `asker`, which is the default for what it asks for.
abbrev pub manager : Manager ℕ ℕ
manager = record {
  store = store;
  fresh = 3;
  uuids = 0;
  bases = [];
  py_bases = [];
  modules = ("Cone", 2) ∷ ("Square", 0) ∷ [];
  defaults = (area_type, "Cone") ∷ [];
  inputs = (area_type, []) ∷ [];
  caches = some (record { module_caches = []; user_caches = [] });
  runtime = none;
}

find-rename_module_example :
    (mm' : Manager ℕ ℕ) × (rename_module text_order text_order demangle new_uuid new_cache py
        "Square" "Disk" manager
      ≡ (ok tt, mm'))
    × (find text_order "Square" mm'.modules ≡ (
        if same text_order "Square" "Square"
        then none
        else if same text_order "Disk" "Square"
        then some 3
        else find text_order "Square" manager.modules))
    × (mm'.store.modules 3
        ≡ some (record (owned_module leaf) { locked = false; name = some "Disk" }))
    × (mm'.store.modules 0 ≡ some leaf)
unfolding has_key find same less_text less_nat storing_python_object
find-rename_module_example =
    find-rename_module text_order text_order demangle new_uuid new_cache py manager "Square" "Disk"
      0 leaf "Square" 0 refl refl refl (record { inputs = (refl, tt); submods = tt }) (omega arith)

-- The manager where "Square" is the default.
abbrev with_default : Manager ℕ ℕ
with_default = record manager { defaults = (area_type, "Square") ∷ [] }

-- The manager with `caller`, whose request is ready.
abbrev with_caller : Manager ℕ ℕ
with_caller = record with_default { modules = ("Prism", 1) ∷ [] }

at-IsFilled_example :
    at text_order text_order demangle new_uuid new_cache 3 "Prism" with_caller ≡ (ok 1, with_caller)
unfolding find same less_text less_nat ready
at-IsFilled_example =
    at-IsFilled text_order text_order demangle new_uuid new_cache with_caller 2 1 "Prism" caller
      area_base refl refl refl ((leaf_request, area_type, refl, refl, refl), tt)

-- The same manager with other inputs for its default, which do not count.
abbrev other_inputs : Manager ℕ ℕ
other_inputs = record manager { inputs = (area_type, ("side", open_input) ∷ []) ∷ [] }

manager_eq-agrees_example :
    SameModule text_order text_order py numbers 1 store
      (find text_order "cone" manager.modules)
      (find text_order "cone" other_inputs.modules)
    × (count rtti_order area_type manager.bases ≡ count rtti_order area_type other_inputs.bases)
    × (find rtti_order area_type manager.defaults ≡ find rtti_order area_type other_inputs.defaults)
unfolding find same less_text less_nat manager_eq numbers
manager_eq-agrees_example =
    manager_eq-agrees text_order text_order py numbers 1 store manager other_inputs
      (refl, (refl, tt)) (refl, (refl, tt)) tt tt refl "cone" area_type

at-rename_module_example :
    (mm' : Manager ℕ ℕ) × (rename_module text_order text_order demangle new_uuid new_cache py
        "Square" "Disk" with_default
      ≡ (ok tt, mm'))
    × (at text_order text_order demangle new_uuid new_cache 2 "Cone" mm'
        ≡ (err (no_module "Square"), mm'))
unfolding has_key find same less_text less_nat unlocked_copy
at-rename_module_example =
    at-rename_module text_order text_order demangle new_uuid new_cache py with_default 0 "Square"
      "Disk" "Cone" 0 2 leaf asker leaf area_base "area" [] open_request area_type refl refl refl
      refl refl refl refl (omega arith) refl refl refl refl refl refl
