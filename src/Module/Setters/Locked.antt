-- ===== src/Module/Setters/Locked.antt =====
-- Locked modules, and property types.
use plugin_play.Base.{
  ℕ, String, true, ◌≡◌, ◌↔◌, inl, inr, Option, some, Option-cases, arith, if◌then◌else◌,
}
use plugin_play.Base.Order.{Order, same}
use plugin_play.Base.Map.{find, assign, find-assign}
use plugin_play.Base.Result.{Result, ok, err, Result-cases, runtime_error}
use plugin_play.Types.{Rtti}
use plugin_play.Any.{AnyField}
use plugin_play.Fields.ModuleInput
use plugin_play.Fields.ModuleInput.{ModuleInput}
use plugin_play.Module.{Module, ModuleBase, Store, SubmoduleRequest}
use plugin_play.Module.Setters.{
  change_input, change_submod, add_property_type, suitable, set_module,
}

abbrev pub locked_error : {B : Type 0} → Result B
locked_error = err (runtime_error "Locked modules can not be modified")

module _ {A C : Type 0} (cim : Order String) (print : AnyField A → String)
    (demangle : Rtti → String) where
  -- Each of the calls that change inputs, submodules or property types is refused by a locked
  -- module, whatever its arguments.
  locked_refuses :
      (m : Module A) (st : Store A C) (key : String) (v : AnyField A) (ptr : Option ℕ) (t : Rtti)
      → m.locked ≡ true
      → (change_input cim print m key v ≡ locked_error)
        × (change_submod cim demangle st m key ptr ≡ locked_error)
        × (add_property_type m t ≡ locked_error)
  unfolding change_input change_submod add_property_type
  locked_refuses m st key v ptr t h = (ground arith, ground arith, ground arith)

module _ {A : Type 0} (cim : Order String) (print : AnyField A → String) where
  change_input-eq_ok :
      (m m' : Module A) (key : String) (v : AnyField A)
      → change_input cim print m key v ≡ ok m'
      → (i j : ModuleInput A) × (find cim key m.inputs ≡ some i)
        × (ModuleInput.set_value cim print i v ≡ ok j)
        × (m' ≡ record m { inputs = assign cim key j m.inputs })
  unfolding change_input
  change_input-eq_ok m m' key v h = elim (Option-cases (find cim key m.inputs)) [
    | inl e ↦ absurd (ground arith)
    | inr (i, e) ↦ elim (Result-cases (ModuleInput.set_value cim print i v)) [
      | inl (j, set) ↦ (i, j, e, set, ground arith)
      | inr (x, set) ↦ absurd (ground arith)
    ]
  ]

  -- If change_input succeeds, the input of the key has been given the value by its own checks,
  -- every other key has the input that it had, and the rest of the module stays.
  find-change_input :
      (m m' : Module A) (key k : String) (v : AnyField A)
      → change_input cim print m key v ≡ ok m'
      → (i j : ModuleInput A) × (find cim key m.inputs ≡ some i)
        × (ModuleInput.set_value cim print i v ≡ ok j)
        × (find cim k m'.inputs ≡ (if same cim key k then some j else find cim k m.inputs))
        × (m' ≡ record m { inputs = m'.inputs })
  find-change_input m m' key k v h =
      let (i, j, found, set, e) = change_input-eq_ok m m' key v h in
      (i, j, found, set, ground (arith, e, find-assign cim key k j m.inputs), ground (arith, e))

module _ {A C : Type 0} (demangle : Rtti → String) where
  -- Where the pointer leads to a module with a base and the request has a type, set_module
  -- stores the module if and only if a property type of the module is the requested type or has
  -- its name.
  set_module_iff :
      (st : Store A C) (r : SubmoduleRequest A) (b : ℕ) (m : Module A) (base : ModuleBase A)
      (t : Rtti)
      → st.modules b ≡ some m
      → m.base ≡ some base
      → r.type ≡ some t
      → (set_module demangle st r (some b) ≡ ok (record r { module_ptr = some b }))
        ↔ (suitable t m.property_types ≡ true)
  unfolding set_module
  set_module_iff st r b m base t found has_base typed = (λ h. ground arith, λ h. ground arith)
