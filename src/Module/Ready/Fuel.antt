-- ===== src/Module/Ready/Fuel.antt =====
-- How much fuel `ready` needs: the levels of submodules below the module.
use plugin_play.Base.{
  ℕ, zero, suc, ◌<◌, String, Bool, true, ◌≡◌, refl, some, has, List, [], ◌∷◌, arith, Option-cases,
  inl, inr, if◌then◌else◌,
}
use plugin_play.Base.Order.{Order}
use plugin_play.Base.Map.{Map, AllValues, AllValues-map}
use plugin_play.Base.Set
use plugin_play.Base.Result.{Result, ok, has_ok, Result-cases, noexcept}
use plugin_play.Fields.ModuleInput.{is_ready}
use plugin_play.Module.{Module, SubmoduleRequest, InputMap, Store}
use plugin_play.Module.Ready.{not_set_guts, request_ready, not_set, ready}

-- Every module has a base, and a request leads to a module that is alive and of a lower rank: no
-- module is a submodule of itself, at any depth.
pub record IsLayered {A C : Type 0} (st : Store A C) (rank : ℕ → ℕ) : Type 0 where
  pub based : (a : ℕ) (m : Module A) → st.modules a ≡ some m → has m.base ≡ true
  pub below :
      (a : ℕ) (m : Module A)
      → st.modules a ≡ some m
      → AllValues
          (λ r. (b : ℕ) → r.module_ptr ≡ some b → (has (st.modules b) ≡ true) × (rank b < rank a))
          m.submods

module _ (strings : Order String) where
  not_set_guts-ok :
      {V : Type 0} (good : V → Result Bool) (map : Map String V) (probs : List String)
      → AllValues (λ v. has_ok (good v) ≡ true) map
      → has_ok (not_set_guts strings good map probs) ≡ true
  unfolding not_set_guts
  not_set_guts-ok good [] probs h = refl
  not_set_guts-ok good ((k, v) ∷ map) probs (h, hs) = elim (Result-cases (good v)) [
    | inl (fine, e) ↦
        ground (
          arith,
          e,
          not_set_guts-ok good map (if fine then probs else Set.insert strings k probs) hs,
        )
    | inr (x, e) ↦ absurd (ground arith)
  ]

  not_set_guts-ok-inputs :
      {A : Type 0} (map : InputMap A) (probs : List String)
      → has_ok (not_set_guts strings (λ i. ok (is_ready i)) map probs) ≡ true
  unfolding not_set_guts
  not_set_guts-ok-inputs [] probs = refl
  not_set_guts-ok-inputs ((k, v) ∷ map) probs =
      not_set_guts-ok-inputs map (if is_ready v then probs else Set.insert strings k probs)

  request_ready-ok :
      {A : Type 0} (go : ℕ → InputMap A → Result Bool) (r : SubmoduleRequest A)
      → ((b : ℕ) → r.module_ptr ≡ some b → has_ok (go b r.inputs) ≡ true)
      → has_ok (noexcept (request_ready strings go r)) ≡ true
  unfolding request_ready
  request_ready-ok go r h = elim (Option-cases r.module_ptr) [
    | inl e ↦ ground arith
    | inr (b, e) ↦ ground (arith, h b e)
  ]

  pub not_set-ok :
      {A : Type 0} (go : ℕ → InputMap A → Result Bool) (m : Module A) (given : InputMap A)
      → has m.base ≡ true
      → AllValues (λ r. (b : ℕ) → r.module_ptr ≡ some b → has_ok (go b r.inputs) ≡ true) m.submods
      → has_ok (not_set strings go m given) ≡ true
  unfolding not_set
  not_set-ok go m given based h =
      let submods_ok = AllValues-map _ _ (λ r. request_ready-ok go r) m.submods h in
      elim (Result-cases
        (not_set_guts strings (λ r. noexcept (request_ready strings go r)) m.submods [])) [
          | inr (x, e) ↦ absurd (
              ground (
                arith,
                not_set_guts-ok (λ r. noexcept (request_ready strings go r)) m.submods []
                    submods_ok,
              ))
          | inl (subs, e) ↦
              elim (Result-cases (not_set_guts strings (λ i. ok (is_ready i)) m.inputs [])) [
                | inr (x, f) ↦ absurd (ground (arith, not_set_guts-ok-inputs m.inputs []))
                | inl (ins, f) ↦ ground (arith, e, f)
              ]
        ]

  module _ {A C : Type 0} (st : Store A C) (rank : ℕ → ℕ) (layered : IsLayered st rank) where
    -- What holds of every module of a lower rank holds of the submodules.
    pub below-AllValues :
        (P : ℕ → SubmoduleRequest A → Type 0) (n a : ℕ) (m : Module A)
        → ((b : ℕ) (r : SubmoduleRequest A) → has (st.modules b) ≡ true → rank b < n → P b r)
        → st.modules a ≡ some m
        → rank a < suc n
        → AllValues (λ r. (b : ℕ) → r.module_ptr ≡ some b → P b r) m.submods
    below-AllValues P n a m h e low =
        AllValues-map _ (λ r. (b : ℕ) → r.module_ptr ≡ some b → P b r)
          (λ r k b f. h b r (k b f).0 (ground (arith, k b f))) m.submods (layered.below a m e)

    -- If every module has a base and no module is below itself, ready returns, with more fuel
    -- than the rank of the module.
    pub ready-ok :
        (n a : ℕ) (given : InputMap A)
        → has (st.modules a) ≡ true
        → rank a < n
        → has_ok (ready strings n st a given) ≡ true
    unfolding ready
    ready-ok zero a given there low = absurd (omega arith)
    ready-ok (suc n) a given there low = elim (Option-cases (st.modules a)) [
      | inl e ↦ absurd (ground arith)
      | inr (m, e) ↦
          let go = λ (b : ℕ) (r : InputMap A). ready strings n st b r in
          let deeper =
            below-AllValues (λ b r. has_ok (go b r.inputs) ≡ true) n a m
              (λ b r. ready-ok n b r.inputs) e low in
          elim (Result-cases (not_set strings go m given)) [
            | inr (x, f) ↦
                absurd (ground (arith, not_set-ok go m given (layered.based a m e) deeper))
            | inl (found, f) ↦ ground (arith, e, f)
          ]
    ]
