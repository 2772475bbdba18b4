-- ===== src/PropertyTypes/Facade/Returns.antt =====
-- What a facade module returns.
use plugin_play.Base.{
  ℕ, suc, String, true, false, ◌≡◌, refl, sym, ap, subst, ==-refl, ◌∙◌, some, none, has, List, [],
  ◌∷◌, arith, All, Option-cases, inl, inr,
}
use plugin_play.Base.Order.{Order}
use plugin_play.Base.Set
use plugin_play.Base.Map
use plugin_play.Base.Map.{Map, keys, keys-assign}
use plugin_play.Base.Result.{ok, Result-cases}
use plugin_play.Types.{Rtti, rtti_same, rtti_order}
use plugin_play.Fields.ModuleInput.{ModuleInput}
use plugin_play.Fields.ModuleResult.{ModuleResult}
use plugin_play.Module.{
  Module, ModuleBase, InputMap, ResultMap, SubmoduleMap, Store, make_module, write,
}
use plugin_play.Module.Setters.{check_property_type, suitable}
use plugin_play.Module.Ready.Laws.{ready-leaf}
use plugin_play.Module.Lock.{lock}
use plugin_play.Module.Memo.{is_memoizable, submod_uuids, submod_key, merge_bound}
use plugin_play.Module.Memo.Merge.{merge_bound-given, uuids_input-ok}
use plugin_play.Module.World.{World, merged}
use plugin_play.Module.Run.{all_ready}
use plugin_play.Module.Run.Hit.{locked_store, run_not_memoized}
use plugin_play.PropertyTypes.FieldTuple.{Element, Entry, FieldTuple}
use plugin_play.PropertyTypes.Wrap.{
  PropertyType, Arg, rtti_of, inputs, results, wrap_guts, change_at, change_field, wrap_inputs,
  wrap_results, unwrap_results,
}
use plugin_play.PropertyTypes.Wrap.RoundTrip.{plain_all, Meets, IsApart}
use plugin_play.PropertyTypes.Wrap.Typed.{
  Admits, Holds, unwrap_inputs-wrap_inputs, unwrap_results-wrap_results,
}
use plugin_play.PropertyTypes.Declare.{insert_fields, satisfies_property_type}
use plugin_play.Module.Setters.Suitable.{suitable-insert}
use plugin_play.PropertyTypes.RunAs.{run_as, inputs_of, results_of}
use plugin_play.PropertyTypes.Facade.{new_base, make_facade}

module _ {A E : Type 0} (cim : Order String) (el : Element A E) where
  keys-change_at :
      (f : Entry E) (v : Arg A) (rv : Map String E) → keys (change_at cim el f v rv).1 ≡ keys rv
  unfolding change_at
  keys-change_at f v rv = elim (Option-cases (Map.find cim f.key rv)) [
    | inl e ↦ ground arith
    | inr (x, e) ↦ elim (Result-cases (change_field cim el f v x)) [
      | inl (changed, h) ↦ ground (arith, keys-assign cim f.key changed rv)
      | inr (y, h) ↦ ground arith
    ]
  ]

  -- Wrapping arguments keeps the keys of the map.
  keys-wrap_guts :
      (builder : FieldTuple E) (args : List (Arg A)) (rv : Map String E)
      → keys (wrap_guts cim el builder args rv).1 ≡ keys rv
  unfolding wrap_guts
  keys-wrap_guts builder [] rv = ground arith
  keys-wrap_guts [] (v ∷ args) rv = refl
  keys-wrap_guts (f ∷ builder) (v ∷ args) rv = elim (Result-cases (change_at cim el f v rv).0) [
    | inl (done, h) ↦
        ground
          (arith, keys-change_at f v rv, keys-wrap_guts builder args (change_at cim el f v rv).1)
    | inr (x, h) ↦ ground (arith, keys-change_at f v rv)
  ]

keys-wrap_inputs :
    {A : Type 0} (cim : Order String) (el : Element A (ModuleInput A)) (pt : PropertyType A)
    (args : List (Arg A)) (rv : InputMap A)
    → keys (wrap_inputs cim el pt args rv).1 ≡ keys rv
unfolding wrap_inputs
keys-wrap_inputs cim el pt args rv = elim (Result-cases (inputs el pt)) [
  | inl (builder, e) ↦ ground (arith, keys-wrap_guts cim el builder args rv)
  | inr (x, e) ↦ ground arith
]

write-found :
    {A C : Type 0} (st : Store A C) (a : ℕ) (m : Module A) → (write st a m).modules a ≡ some m
unfolding write
write-found st a m = ground (arith, ==-refl a)

-- A module without submodules: its lock, and the uuids of its submodules.
module _ {A C : Type 0} (strings : Order String) (n a : ℕ) (st : Store A C) (m : Module A)
    (there : st.modules a ≡ some m) (alone : m.submods ≡ []) where
  lock-leaf : lock strings (suc n) a st ≡ (ok tt, write st a (record m { locked = true }))
  unfolding lock
  lock-leaf = ground (arith, alone)

  submod_uuids-leaf : has m.base ≡ true → submod_uuids strings (suc n) st a ≡ ok []
  unfolding submod_uuids
  submod_uuids-leaf based = ground (arith, alone)

  memoizable-leaf :
      (base : ModuleBase A)
      → m.base ≡ some base
      → base.uuid ≡ none
      → is_memoizable (suc n) st a ≡ ok false
  unfolding is_memoizable
  memoizable-leaf base based anonymous = ground (arith, alone)

module _ {A C : Type 0} (w : World A C) (pt : PropertyType A) (type : Rtti) (algorithm : ℕ) where
  abbrev pub facade_base : FieldTuple (ModuleInput A) → FieldTuple (ModuleResult A) → ModuleBase A
  facade_base ins outs = record (new_base type algorithm) {
    property_types = Set.insert rtti_order (rtti_of pt) [];
    inputs = insert_fields w.cim ins [];
    results = insert_fields w.cim outs [];
  }

  -- The module that make_facade makes.
  abbrev pub facade_of : FieldTuple (ModuleInput A) → FieldTuple (ModuleResult A) → Module A
  facade_of ins outs = record (make_module (facade_base ins outs) none) { memoizable = false }

  -- What wrap_results makes of the values.
  abbrev pub facade_results : FieldTuple (ModuleResult A) → List A → ResultMap A
  facade_results outs vs =
      (wrap_results w.cim (results_of w) pt (plain_all vs) (insert_fields w.cim outs [])).1

  make_facade-ok :
      (ins : FieldTuple (ModuleInput A)) (outs : FieldTuple (ModuleResult A)) (vs : List A)
      → inputs (inputs_of w) pt ≡ ok ins
      → results (results_of w) pt ≡ ok outs
      → IsApart w.cim (results_of w) outs
      → Meets w.cim
          (results_of w)
          (Holds w.cim w.print w.py w.demangle)
          (insert_fields w.cim outs [])
          outs
          vs
      → (make_facade w.cim (inputs_of w) (results_of w) pt type algorithm (plain_all vs)
          ≡ ok (facade_of ins outs, facade_results outs vs))
        × (unwrap_results w.cim (results_of w) pt (facade_results outs vs) ≡ ok vs)
  unfolding make_facade new_base satisfies_property_type make_module
  make_facade-ok ins outs vs i o apart holds =
      let (rv, wraps, unwraps, others) =
        unwrap_results-wrap_results w.cim w.print w.py w.demangle pt vs
          (insert_fields w.cim outs []) outs o apart holds in
      let is : rv ≡ facade_results outs vs = sym (ap (λ p. p.1) wraps) in
      let makes : make_facade w.cim (inputs_of w) (results_of w) pt type algorithm (plain_all vs)
          ≡ ok (facade_of ins outs, rv) =
        rw (i, o, wraps) refl in
      (
        makes ∙ ap (λ r. ok (facade_of ins outs, r)) is,
        subst (λ r. unwrap_results w.cim (results_of w) pt r ≡ ok vs) is unwraps,
      )

  facade_returns :
      (n a : ℕ) (st : Store A C) (us vs : List A) (ins : FieldTuple (ModuleInput A))
      (outs : FieldTuple (ModuleResult A)) (rv : ResultMap A) (given : InputMap A)
      → st.modules a ≡ some (facade_of ins outs)
      → inputs (inputs_of w) pt ≡ ok ins
      → IsApart w.cim (inputs_of w) ins
      → Meets w.cim
          (inputs_of w)
          (Admits w.cim w.print w.py w.demangle)
          (insert_fields w.cim ins [])
          ins
          us
      → unwrap_results w.cim (results_of w) pt rv ≡ ok vs
      → given ≡ (wrap_inputs w.cim (inputs_of w) pt (plain_all us) (insert_fields w.cim ins [])).1
      → all_ready given ≡ true
      → rtti_same w.uuids_type w.py.wrapper ≡ false
      → ((ps : InputMap A) (submods : SubmoduleMap A) (s : Store A C)
          → w.algorithms algorithm ps submods s ≡ (ok rv, s))
      → run_as w (suc n) a pt (plain_all us) st
        ≡ (ok vs, write st a (record (facade_of ins outs) { locked = true }))
  unfolding run_as check_property_type make_module new_base merged
  facade_returns n a st us vs ins outs rv given there i i_apart admits unwraps is_given all native
        returns =
      let m = facade_of ins outs in
      let locked = record m { locked = true } in
      let s = locked_store w (suc n) a given st in
      let (after, wraps, i_unwraps, others) =
        unwrap_inputs-wrap_inputs w.cim w.print w.py w.demangle pt us (insert_fields w.cim ins [])
          ins i i_apart admits in
      let same_keys : keys given ≡ keys m.inputs =
        ap keys is_given ∙ keys-wrap_inputs w.cim (inputs_of w) pt (plain_all us) m.inputs in
      let fine = ready-leaf w.strings n a st m given there refl refl same_keys in
      let is_s : s ≡ write st a locked = ap (λ p. p.1) (lock-leaf w.strings n a st m there refl) in
      let found' : s.modules a ≡ some locked =
        ap (λ (t : Store A C). t.modules a) is_s ∙ write-found st a locked in
      let bound : merge_bound w.cim w.py m.inputs given ≡ ok given =
        merge_bound-given w.cim w.py m.inputs given (
          subst (All (λ k. Map.count w.cim k given ≡ true)) same_keys
            (Map.count-keys w.cim given)) in
      let temp = uuids_input-ok w.cim w.py w.print w.demangle w.uuids_type w.wrap_uuids native [] in
      let merged_ps = Map.emplace w.cim submod_key temp.0 given in
      let uuids = submod_uuids-leaf w.strings n a s locked found' refl refl in
      let never =
        memoizable-leaf w.strings n a s locked found' refl (facade_base ins outs) refl refl in
      let merges_all : merged w (suc n) s a locked given ≡ ok merged_ps =
        rw (bound, uuids, temp.1) refl in
      let satisfies = suitable-insert (rtti_of pt) [] in
      let is_after : given ≡ after = is_given ∙ ap (λ p. p.1) wraps in
      let runs =
        run_not_memoized w (suc n) a given st m locked (facade_base ins outs) merged_ps there refl
          all fine found' merges_all rv s (returns merged_ps [] s) never never in
      ground (arith, there, satisfies, wraps, is_after, runs, unwraps, is_s)

  -- make_facade returns a module that satisfies the property type, and a typed call of it returns
  -- the values it was made of, whatever the arguments: where the inputs and the results of the type
  -- have different keys in the maps, the results hold the values, the inputs admit the arguments
  -- and are all ready with them, and the module's algorithm returns the results that make_facade
  -- wrapped. The module is locked, and nothing else changes.
  pub run_as-make_facade :
      (n a : ℕ) (st : Store A C) (us vs : List A) (ins : FieldTuple (ModuleInput A))
      (outs : FieldTuple (ModuleResult A)) (given : InputMap A)
      → st.modules a ≡ some (facade_of ins outs)
      → inputs (inputs_of w) pt ≡ ok ins
      → IsApart w.cim (inputs_of w) ins
      → Meets w.cim
          (inputs_of w)
          (Admits w.cim w.print w.py w.demangle)
          (insert_fields w.cim ins [])
          ins
          us
      → results (results_of w) pt ≡ ok outs
      → IsApart w.cim (results_of w) outs
      → Meets w.cim
          (results_of w)
          (Holds w.cim w.print w.py w.demangle)
          (insert_fields w.cim outs [])
          outs
          vs
      → given ≡ (wrap_inputs w.cim (inputs_of w) pt (plain_all us) (insert_fields w.cim ins [])).1
      → all_ready given ≡ true
      → rtti_same w.uuids_type w.py.wrapper ≡ false
      → ((ps : InputMap A) (submods : SubmoduleMap A) (s : Store A C)
          → w.algorithms algorithm ps submods s ≡ (ok (facade_results outs vs), s))
      → (make_facade w.cim (inputs_of w) (results_of w) pt type algorithm (plain_all vs)
          ≡ ok (facade_of ins outs, facade_results outs vs))
        × (suitable (rtti_of pt) (facade_of ins outs).property_types ≡ true)
        × (run_as w (suc n) a pt (plain_all us) st
            ≡ (ok vs, write st a (record (facade_of ins outs) { locked = true })))
  unfolding make_module
  run_as-make_facade n a st us vs ins outs given there i i_apart admits o o_apart holds is_given all
        native returns =
      let (made, unwraps) = make_facade-ok ins outs vs i o o_apart holds in
      (
        made,
        suitable-insert (rtti_of pt) [],
        facade_returns n a st us vs ins outs (facade_results outs vs) given there i i_apart admits
            unwraps is_given all native returns,
      )
