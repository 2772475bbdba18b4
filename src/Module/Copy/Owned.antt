-- ===== src/Module/Copy/Owned.antt =====
-- Copies of modules whose inputs hold no Python objects: they own all values.
use plugin_play.Base.{String, ◌≡◌, refl, [], ◌∷◌}
use plugin_play.Base.Map.{Map, map_values, AllValues, AllValues-map}
use plugin_play.Base.Result.{Result, ok}
use plugin_play.Any.{Python}
use plugin_play.Any.Equality.{IsNative, owned, copy-owned}
use plugin_play.Fields.ModuleInput.{ModuleInput, copy_input}
use plugin_play.Module.{Module, SubmoduleRequest, InputMap}
use plugin_play.Module.Copy.{copy_values, copy_inputs, copy_request, copy_submods, copy_of}

copy_values-map_values :
    {V : Type 0} (copy : V → Result V) (f : V → V) (m : Map String V)
    → AllValues (λ v. copy v ≡ ok (f v)) m
    → copy_values copy m ≡ ok (map_values f m)
unfolding copy_values
copy_values-map_values copy f [] h = refl
copy_values-map_values copy f ((k, v) ∷ m) (h, hs) = rw (h, copy_values-map_values copy f m hs) refl

module _ {A : Type 0} where
  abbrev pub owned_input : ModuleInput A → ModuleInput A
  owned_input i = record i { value = owned i.value }

  abbrev pub owned_request : SubmoduleRequest A → SubmoduleRequest A
  owned_request r = record r { inputs = map_values owned_input r.inputs }

  -- The module that owns all its values, and is otherwise the same.
  abbrev pub owned_module : Module A → Module A
  owned_module m = record m {
    inputs = map_values owned_input m.inputs;
    submods = map_values owned_request m.submods;
  }

  module _ (py : Python A) where
    abbrev pub AreNative : InputMap A → Type 0
    AreNative inputs = AllValues (λ i. IsNative py i.value) inputs

    pub copy_input-owned :
        (i : ModuleInput A) → IsNative py i.value → copy_input py i ≡ ok (owned_input i)
    unfolding copy_input
    copy_input-owned i h = rw (copy-owned py i.value h) refl

    copy_inputs-owned :
        (inputs : InputMap A)
        → AreNative inputs
        → copy_inputs py inputs ≡ ok (map_values owned_input inputs)
    unfolding copy_inputs
    copy_inputs-owned inputs h =
        copy_values-map_values (λ i. copy_input py i) owned_input inputs
          (AllValues-map _ _ (λ i. copy_input-owned i) inputs h)

    copy_request-owned :
        (r : SubmoduleRequest A) → AreNative r.inputs → copy_request py r ≡ ok (owned_request r)
    unfolding copy_request
    copy_request-owned r h = rw (copy_inputs-owned r.inputs h) refl

    -- No input that is bound to the module or kept by a request holds a Python object.
    pub record HoldsNoPython (m : Module A) : Type 0 where
      pub inputs : AreNative m.inputs
      pub submods : AllValues (λ r. AreNative r.inputs) m.submods

    pub copy_of-owned : (m : Module A) → HoldsNoPython m → copy_of py m ≡ ok (owned_module m)
    unfolding copy_of copy_submods
    copy_of-owned m h =
        rw
          (
            copy_inputs-owned m.inputs h.inputs,
            copy_values-map_values (λ r. copy_request py r) owned_request m.submods
                (AllValues-map _ _ (λ r. copy_request-owned r) m.submods h.submods),
          )
          refl
