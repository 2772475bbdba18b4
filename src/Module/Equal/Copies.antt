-- ===== src/Module/Equal/Copies.antt =====
-- Copies of modules against their originals.
use plugin_play.Base.{
  ℕ, zero, suc, ◌<◌, ◌≤◌, Bool, true, false, not, ◌≡◌, refl, ap, ◌∙◌, if◌then◌else◌, some, has,
  arith, str_eq, Option-cases, inl, inr,
}
use plugin_play.Base.Equal.{
  bool_eq, bool_eq_refl, option_eq_refl, list_eq_refl, map_eq, map_eq_refl, map_eq-map_values,
  str_eq_refl,
}
use plugin_play.Base.Map.{AllValues, AllValues-map, map_values}
use plugin_play.Base.Result.{Result, ok, ◌>>=◌}
use plugin_play.Types.{rtti_same}
use plugin_play.Any.{Python, Values, IsEquivalence}
use plugin_play.Any.Equality.{IsNative}
use plugin_play.Fields.Equal.{
  input_eq, result_eq, input_eq_refl, input_eq-owned, result_eq_refl, HoldsNative, rtti_same_refl,
}
use plugin_play.Module.{Module, ModuleBase, SubmoduleRequest, InputMap, SubmoduleMap, Store}
use plugin_play.Module.Copy.Owned.{
  HoldsNoPython, owned_input, owned_request, owned_module, copy_of-owned,
}
use plugin_play.Module.Lock.{unlock}
use plugin_play.Module.Setters.{unlocked_copy}
use plugin_play.Module.Equal.{request_eq, base_eq, module_eq, equal_at}

chosen :
    (b : Bool)
    → (if b then ok true else ok false) >>= (λ one. if one then ok true else ok false) ≡ ok b
chosen true = refl
chosen false = refl

bool_eq-false : (b : Bool) → bool_eq b false ≡ not b
bool_eq-false true = refl
bool_eq-false false = refl

module _ {A C : Type 0} (py : Python A) (vals : Values A) (laws : IsEquivalence vals)
    (st : Store A C) (rank : ℕ → ℕ) where
  -- The requests lead to modules that are alive and of a rank below `top`.
  abbrev pub LeadBelow : ℕ → SubmoduleMap A → Type 0
  LeadBelow top submods =
      AllValues
        (λ r. (b : ℕ) → r.module_ptr ≡ some b → (has (st.modules b) ≡ true) × (rank b < top))
        submods

  -- No field holds a Python object, and the requests lead below `top`.
  pub record IsBaseComparable (top : ℕ) (base : ModuleBase A) : Type 0 where
    pub inputs : AllValues (λ i. IsNative py i.value) base.inputs
    pub results : AllValues (λ r. HoldsNative py vals r.value) base.results
    pub submods : LeadBelow top base.submods

  pub record IsComparable (top : ℕ) (m : Module A) : Type 0 where
    pub inputs : AllValues (λ i. IsNative py i.value) m.inputs
    pub submods : LeadBelow top m.submods
    pub base : (b : ModuleBase A) → m.base ≡ some b → IsBaseComparable top b

  module _ (go : ℕ → ℕ → Result Bool) where
    -- What `go` takes for equal to itself.
    abbrev Reflects : SubmoduleMap A → Type 0
    Reflects submods = AllValues (λ r. (b : ℕ) → r.module_ptr ≡ some b → go b b ≡ ok true) submods

    -- The inputs of a request do not count.
    request_eq-inputs :
        (r : SubmoduleRequest A) (inputs : InputMap A)
        → ((b : ℕ) → r.module_ptr ≡ some b → go b b ≡ ok true)
        → request_eq py vals go r (record r { inputs = inputs }) ≡ ok true
    unfolding request_eq
    request_eq-inputs r inputs h = elim (Option-cases r.module_ptr) [
      | inl e ↦
          rw
            (
              bool_eq_refl (has r.type),
              bool_eq_refl (has r.desc),
              bool_eq_refl (has r.module_ptr),
              option_eq_refl rtti_same rtti_same_refl r.type,
              option_eq_refl str_eq str_eq_refl r.desc,
              e,
            )
            refl
      | inr (b, e) ↦
          rw
            (
              bool_eq_refl (has r.type),
              bool_eq_refl (has r.desc),
              bool_eq_refl (has r.module_ptr),
              option_eq_refl rtti_same rtti_same_refl r.type,
              option_eq_refl str_eq str_eq_refl r.desc,
              e,
              e,
            )
            (h b e)
    ]

    inputs_eq_refl :
        (inputs : InputMap A)
        → AllValues (λ i. IsNative py i.value) inputs
        → map_eq (input_eq py vals) inputs inputs ≡ ok true
    inputs_eq_refl inputs h =
        map_eq_refl (input_eq py vals) inputs
          (AllValues-map _ _ (λ i. input_eq_refl py vals laws i) inputs h)

    submods_eq_refl :
        (submods : SubmoduleMap A)
        → Reflects submods
        → map_eq (request_eq py vals go) submods submods ≡ ok true
    submods_eq_refl submods h =
        map_eq_refl (request_eq py vals go) submods
          (AllValues-map _ _ (λ r. request_eq-inputs r r.inputs) submods h)

    base_eq_refl :
        (top : ℕ) (b : ModuleBase A)
        → IsBaseComparable top b
        → Reflects b.submods
        → base_eq py vals go b b ≡ ok true
    unfolding base_eq
    base_eq_refl top b h reflects =
        rw
          (
            rtti_same_refl b.type,
            option_eq_refl str_eq str_eq_refl b.desc,
            list_eq_refl str_eq str_eq_refl b.citations,
            bool_eq_refl b.is_python,
            inputs_eq_refl b.inputs h.inputs,
            map_eq_refl (result_eq py vals) b.results
                (AllValues-map _ _ (λ r. result_eq_refl py vals laws r) b.results h.results),
            submods_eq_refl b.submods reflects,
            list_eq_refl rtti_same rtti_same_refl b.property_types,
            list_eq_refl str_eq str_eq_refl b.python_property_types,
          )
          refl

    -- Only whether it is locked tells a module from one whose inputs and requests are equal to its
    -- own, and which differs in nothing else.
    module_eq-locked :
        (top : ℕ) (m : Module A) (locked : Bool) (inputs : InputMap A) (submods : SubmoduleMap A)
        → IsComparable top m
        → map_eq (input_eq py vals) m.inputs inputs ≡ ok true
        → map_eq (request_eq py vals go) m.submods submods ≡ ok true
        → ((b : ModuleBase A) → m.base ≡ some b → Reflects b.submods)
        → module_eq py vals go m (record m { locked = locked; inputs = inputs; submods = submods })
          ≡ ok (bool_eq m.locked locked)
    unfolding module_eq
    module_eq-locked top m locked inputs submods h same_inputs same_submods base_reflects =
        elim (Option-cases m.base) [
          | inl e ↦
              rw (e, option_eq_refl str_eq str_eq_refl m.name) (chosen (bool_eq m.locked locked))
          | inr (b, e) ↦
              rw
                (
                  e,
                  e,
                  same_inputs,
                  same_submods,
                  list_eq_refl rtti_same rtti_same_refl m.property_types,
                  list_eq_refl str_eq str_eq_refl m.python_property_types,
                  base_eq_refl top b (h.base b e) (base_reflects b e),
                  option_eq_refl str_eq str_eq_refl m.name,
                )
                (chosen (bool_eq m.locked locked))
        ]

  -- What `equal_at` takes for equal to itself, a map of requests below it takes too.
  LeadBelow-Reflects :
      (n top : ℕ) (submods : SubmoduleMap A)
      → top ≤ n
      → LeadBelow top submods
      → ((b : ℕ) → has (st.modules b) ≡ true → rank b < n → equal_at py vals n st b b ≡ ok true)
      → Reflects (λ c d. equal_at py vals n st c d) submods
  LeadBelow-Reflects n top submods low leads equals =
      AllValues-map _ _ (λ r k b f. equals b (k b f).0 (ground (arith, k b f))) submods leads

  module _
      (comparable : (a : ℕ) (m : Module A) → st.modules a ≡ some m → IsComparable (rank a) m) where
    equal_at_refl :
        (n a : ℕ) → has (st.modules a) ≡ true → rank a < n → equal_at py vals n st a a ≡ ok true
    unfolding equal_at
    equal_at_refl zero a there low = absurd (omega arith)
    equal_at_refl (suc n) a there low = elim (Option-cases (st.modules a)) [
      | inl e ↦ absurd (ground arith)
      | inr (m, e) ↦
          let h = comparable a m e in
          let deeper = equal_at_refl n in
          rw
            (
              e,
              module_eq-locked (λ c d. equal_at py vals n st c d) (rank a) m m.locked m.inputs
                  m.submods h (inputs_eq_refl (λ c d. equal_at py vals n st c d) m.inputs h.inputs)
                  (submods_eq_refl (λ c d. equal_at py vals n st c d) m.submods
                    (LeadBelow-Reflects n (rank a) m.submods (omega arith) h.submods deeper))
                  (λ b f.
                    LeadBelow-Reflects n (rank a) b.submods (omega arith) (h.base b f).submods
                      deeper),
            )
            (ap ok (bool_eq_refl m.locked))
    ]

    -- Where no module is below itself, no field holds a Python object and operator== of the wrapped
    -- types is an equivalence: an unlocked copy of a module can be made, which owns its values, and
    -- it compares equal to the module exactly if the module is not locked. The comparison of the
    -- two returns, with as much fuel as the rank of the module, and finds no other difference.
    pub module_eq-unlocked_copy :
        (n : ℕ) (m : Module A)
        → IsComparable n m
        → HoldsNoPython py m
        → (c : Module A) × (unlocked_copy py m ≡ ok c)
          × (c ≡ record (owned_module m) { locked = false })
          × (module_eq py vals (λ a b. equal_at py vals n st a b) m c ≡ ok (not m.locked))
    unfolding unlocked_copy unlock
    module_eq-unlocked_copy n m h native =
        let go = λ (a b : ℕ). equal_at py vals n st a b in
        let reflects = LeadBelow-Reflects n n m.submods (omega arith) h.submods (equal_at_refl n) in
        let same_inputs =
          map_eq-map_values (input_eq py vals) owned_input m.inputs
            (AllValues-map _ _ (λ i. input_eq-owned py vals laws i) m.inputs h.inputs) in
        let same_submods = map_eq-map_values (request_eq py vals go) owned_request m.submods (
          AllValues-map _ _ (λ r. request_eq-inputs go r (map_values owned_input r.inputs))
            m.submods reflects) in
        (
          record (owned_module m) { locked = false },
          rw (copy_of-owned py m native) refl,
          refl,
          module_eq-locked go n m false (map_values owned_input m.inputs)
                (map_values owned_request m.submods) h same_inputs same_submods
                (λ b f.
                  LeadBelow-Reflects n n b.submods (omega arith) (h.base b f).submods
                    (equal_at_refl n))
              ∙ ap ok (bool_eq-false m.locked),
        )
