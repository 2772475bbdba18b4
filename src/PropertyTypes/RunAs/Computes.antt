-- ===== src/PropertyTypes/RunAs/Computes.antt =====
-- What a typed call of a module returns, whose algorithm uses the same property type, as that of a
-- LambdaModule (cxx/include/pluginplay/module/lambda_module.hpp) does.
use plugin_play.Base.{
  ℕ, String, false, true, ◌≡◌, ◌∙◌, some, List, [], ◌∷◌, arith, Option-cases, inl, inr,
}
use plugin_play.Base.Map
use plugin_play.Base.Map.{Map}
use plugin_play.Base.Order.{Order}
use plugin_play.Base.Result.{Result, ok, ◌>>=◌, >>=-eq-ok}
use plugin_play.Types.{Rtti, rtti_same, rtti_equal}
use plugin_play.Fields.ModuleInput.{ModuleInput}
use plugin_play.Fields.ModuleResult.{ModuleResult}
use plugin_play.Module.{Module, ModuleBase, SubmoduleRequest, InputMap, ResultMap, Store}
use plugin_play.Module.Setters.{suitable, check_property_type}
use plugin_play.Module.Ready.{ready}
use plugin_play.Module.Memo.{is_memoizable}
use plugin_play.Module.Memo.Merge.{find-merge_inputs-given}
use plugin_play.Module.World.{World, merged}
use plugin_play.Module.Run.{all_ready}
use plugin_play.Module.Run.Hit.{locked_store, run_not_memoized}
use plugin_play.PropertyTypes.FieldTuple.{Element, FieldTuple}
use plugin_play.PropertyTypes.Wrap.{
  PropertyType, rtti_of, inputs, results, wrap_inputs, wrap_results, unwrap_inputs, unwrap_guts,
}
use plugin_play.PropertyTypes.Wrap.RoundTrip.{plain_all, Meets, IsApart}
use plugin_play.PropertyTypes.Wrap.Typed.{
  Admits, Holds, unwrap_inputs-wrap_inputs, unwrap_results-wrap_results,
}
use plugin_play.PropertyTypes.RunAs.{run_as, request_run_as, inputs_of, results_of}

module _ {A E : Type 0} (cim : Order String) (el : Element A E) where
  -- More entries do not change what is unwrapped.
  unwrap_guts-grows :
      (builder : FieldTuple E) (rv more : Map String E) (vs : List A)
      → ((k : String) (e : E) → Map.find cim k rv ≡ some e → Map.find cim k more ≡ some e)
      → unwrap_guts cim el builder rv ≡ ok vs
      → unwrap_guts cim el builder more ≡ ok vs
  unfolding unwrap_guts
  unwrap_guts-grows [] rv more vs h e = e
  unwrap_guts-grows (f ∷ builder) rv more vs h e = elim (Option-cases (Map.find cim f.key rv)) [
    | inl n ↦ absurd (ground arith)
    | inr (x, there) ↦
        let (v, reads, next) =
          >>=-eq-ok (el.value x f.type)
            (λ lhs. unwrap_guts cim el builder rv >>= λ rhs. ok (lhs ∷ rhs)) {b = vs}
            (ground arith) in
        let (us, rest, is) = >>=-eq-ok (unwrap_guts cim el builder rv) _ next in
        ground (arith, h f.key x there, unwrap_guts-grows builder rv more us h rest)
  ]

unwrap_inputs-grows :
    {A : Type 0} (cim : Order String) (el : Element A (ModuleInput A)) (pt : PropertyType A)
    (builder : FieldTuple (ModuleInput A)) (rv more : InputMap A) (vs : List A)
    → ((k : String) (e : ModuleInput A) → Map.find cim k rv ≡ some e → Map.find cim k more ≡ some e)
    → inputs el pt ≡ ok builder
    → unwrap_inputs cim el pt rv ≡ ok vs
    → unwrap_inputs cim el pt more ≡ ok vs
unfolding unwrap_inputs
unwrap_inputs-grows cim el pt builder rv more vs h b e =
    ground (arith, unwrap_guts-grows cim el builder rv more vs h (ground arith))

module _ {A C : Type 0} (w : World A C) (pt : PropertyType A) (f : List A → List A) where
  -- LambdaModule's m_fxn_, and what a developer's run_ does: it unwraps its inputs by the property
  -- type, applies `f`, and wraps what it gives into the results that were declared.
  abbrev pub lambda_run : ResultMap A → InputMap A → Result (ResultMap A)
  lambda_run declared ps = do
    vs ← unwrap_inputs w.cim (inputs_of w) pt ps
    let (wrap, rv) = wrap_results w.cim (results_of w) pt (plain_all (f vs)) declared
    wrap >>= λ done. ok rv

  module _ (n a : ℕ) (st : Store A C) (m m' : Module A) (base : ModuleBase A) (vs : List A)
      (given merged_ps : InputMap A) (ins : FieldTuple (ModuleInput A))
      (outs : FieldTuple (ModuleResult A)) (r : SubmoduleRequest A) (u : Rtti) where
    -- A module that satisfies a property type, and whose algorithm unwraps its inputs by that type,
    -- applies a function and wraps what it gives, returns what the function gives for the
    -- arguments of run_as, also where another module calls it by a request of that type: where the inputs and the results of the type have different keys in
    -- the maps, the inputs admit the arguments and the results hold what the function gives, all
    -- is ready with the arguments, the inputs merge, and the module is not memoizable. Modules are
    -- locked, and nothing else changes.
    pub run_as-lambda_run :
        r.type ≡ some u
        → rtti_equal u (rtti_of pt) ≡ true
        → r.module_ptr ≡ some a
        → st.modules a ≡ some m
        → m.base ≡ some base
        → suitable (rtti_of pt) m.property_types ≡ true
        → inputs (inputs_of w) pt ≡ ok ins
        → IsApart w.cim (inputs_of w) ins
        → Meets w.cim (inputs_of w) (Admits w.cim w.print w.py w.demangle) m.inputs ins vs
        → results (results_of w) pt ≡ ok outs
        → IsApart w.cim (results_of w) outs
        → Meets w.cim (results_of w) (Holds w.cim w.print w.py w.demangle) base.results outs (f vs)
        → given ≡ (wrap_inputs w.cim (inputs_of w) pt (plain_all vs) m.inputs).1
        → all_ready given ≡ true
        → ready w.strings n st a given ≡ ok true
        → (locked_store w n a given st).modules a ≡ some m'
        → merged w n (locked_store w n a given st) a m' given ≡ ok merged_ps
        → rtti_same w.uuids_type w.py.wrapper ≡ false
        → is_memoizable n (locked_store w n a given st) a ≡ ok false
        → ((ps : InputMap A) (st : Store A C)
            → w.algorithms base.algorithm ps m'.submods st ≡ (lambda_run base.results ps, st))
        → (run_as w n a pt (plain_all vs) st ≡ (ok (f vs), locked_store w n a given st))
          × (request_run_as w n r pt (plain_all vs) st ≡ (ok (f vs), locked_store w n a given st))
    unfolding run_as request_run_as check_property_type merged
    run_as-lambda_run typed is_type bound found has_base satisfies i i_apart admits o o_apart holds
          is_given all fine found' merges native never computes =
        let (after, wraps, unwraps, others) =
          unwrap_inputs-wrap_inputs w.cim w.print w.py w.demangle pt vs m.inputs ins i i_apart
            admits in
        let (rv, r_wraps, r_unwraps, r_others) =
          unwrap_results-wrap_results w.cim w.print w.py w.demangle pt (f vs) base.results outs o
            o_apart holds in
        let is_after : given ≡ after = ground arith in
        let keeps : (k : String) (e : ModuleInput A)
            → Map.find w.cim k after ≡ some e
            → Map.find w.cim k merged_ps ≡ some e =
          λ k e there.
            find-merge_inputs-given w.cim w.py w.print w.demangle w.uuids_type w.wrap_uuids native
              w.strings n (locked_store w n a given st) a m' given merged_ps k e merges
              (ground (arith, is_after, there)) in
        let reads : unwrap_inputs w.cim (inputs_of w) pt merged_ps ≡ ok vs =
          unwrap_inputs-grows w.cim (inputs_of w) pt ins after merged_ps vs keeps i unwraps in
        let runs =
          run_not_memoized w n a given st m m' base merged_ps found has_base all fine found' merges
            rv (locked_store w n a given st)
            (computes merged_ps (locked_store w n a given st) ∙ ground (arith, reads, r_wraps))
            never never in
        let returns : run_as w n a pt (plain_all vs) st ≡ (ok (f vs), locked_store w n a given st) =
          ground (arith, runs, wraps, r_unwraps) in
        (returns, rw (typed, is_type, bound) returns)
