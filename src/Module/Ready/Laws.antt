-- ===== src/Module/Ready/Laws.antt =====
-- What `not_set` lists.
use plugin_play.Base.{
  ℕ, suc, some, has, refl, sym, subst, inl, inr, true, String, Bool, false, not, ◌&&◌, ◌||◌, ◌≡◌,
  List, [], ◌∷◌, arith, if◌then◌else◌,
}
use plugin_play.Base.Order.{Order, same, same_refl}
use plugin_play.Base.Map.{Map, AllValues, keys}
use plugin_play.Base.Set
use plugin_play.Base.Result.{Result, Result-cases, ok, err, has_ok, >>=-eq-ok, noexcept, ◌>>=◌}
use plugin_play.Fields.ModuleInput.{is_ready}
use plugin_play.Module.{Module, InputMap, Store, assert_mod}
use plugin_play.Module.Ready.{
  is_empty, NotSet, not_set_guts, erase_given, not_set, request_ready, ready,
}
use plugin_play.Module.Ready.Fuel.{not_set-ok}

module _ (strings : Order String) where
  -- A field of the map has the key and is not ready.
  abbrev pub unready : {V : Type 0} → (V → Result Bool) → Map String V → String → Bool
  unready ready [] k = false
  unready ready ((j, v) ∷ map) k =
      (same strings j k && elim (ready v) [ ok b ↦ not b | err e ↦ false ]) || unready ready map k

  -- The map has an entry with the key, as std::set<std::string> compares keys.
  abbrev pub names : {V : Type 0} → Map String V → String → Bool
  names [] k = false
  names ((j, v) ∷ map) k = same strings j k || names map k

  member-not_set_guts :
      {V : Type 0} (ready : V → Result Bool) (map : Map String V) (probs found : List String)
      (k : String)
      → not_set_guts strings ready map probs ≡ ok found
      → Set.member strings k found ≡ (Set.member strings k probs || unready ready map k)
  unfolding not_set_guts
  member-not_set_guts ready [] probs found k h = ground arith
  member-not_set_guts ready ((j, v) ∷ map) probs found k h =
      let (fine, e, rest) =
        >>=-eq-ok (ready v)
          (λ fine.
            not_set_guts strings ready map (if fine then probs else Set.insert strings j probs))
          h in
      ground (
        arith,
        e,
        member-not_set_guts ready map (if fine then probs else Set.insert strings j probs) found k
            rest,
        Set.member-insert strings j k probs,
      )

  member-erase_given :
      {V : Type 0} (given : Map String V) (probs : List String) (k : String)
      → Set.member strings k (erase_given strings given probs)
        ≡ (Set.member strings k probs && not (names given k))
  unfolding erase_given
  member-erase_given [] probs k = ground arith
  member-erase_given ((j, v) ∷ given) probs k = ground (
    arith,
    member-erase_given given (Set.erase strings j probs) k,
    Set.member-erase strings j k probs,
  )

  -- If not_set returns, it lists an input exactly if it is not ready and the call does not name
  -- it, and a submodule exactly if its request is not ready.
  pub member-not_set :
      {A : Type 0} (go : ℕ → InputMap A → Result Bool) (m : Module A) (given : InputMap A)
      (found : NotSet) (k : String)
      → not_set strings go m given ≡ ok found
      → (Set.member strings k found.inputs
          ≡ (unready (λ i. ok (is_ready i)) m.inputs k && not (names given k)))
        × (Set.member strings k found.submodules
            ≡ unready (λ r. noexcept (request_ready strings go r)) m.submods k)
  unfolding not_set Set.member
  member-not_set go m given found k h =
      let not_set_inputs = not_set_guts strings (λ i. ok (is_ready i)) m.inputs [] in
      let not_set_submods =
        not_set_guts strings (λ r. noexcept (request_ready strings go r)) m.submods [] in
      let both : List String → List String → Result NotSet =
        λ ins subs. ok (record { inputs = erase_given strings given ins; submodules = subs }) in
      let (base, has_base, rest) =
        >>=-eq-ok (assert_mod m) (λ _. not_set_inputs >>= λ i. not_set_submods >>= λ s. both i s)
          h in
      let (ins, ins_ok, rest2) =
        >>=-eq-ok not_set_inputs (λ i. not_set_submods >>= λ s. both i s) rest in
      let (subs, subs_ok, last) = >>=-eq-ok not_set_submods (λ s. both ins s) rest2 in
      (
        ground (
          arith,
          last,
          member-erase_given given ins k,
          member-not_set_guts (λ i. ok (is_ready i)) m.inputs [] ins k ins_ok,
        ),
        ground (
          arith,
          last,
          member-not_set_guts (λ r. noexcept (request_ready strings go r)) m.submods [] subs k
              subs_ok,
        ),
      )

  -- An input whose name is given keeps no module from being ready.
  unready-names :
      {V W : Type 0} (ready : V → Result Bool) (map : Map String V) (given : Map String W)
      (k : String)
      → keys given ≡ keys map
      → (unready ready map k && not (names given k)) ≡ false
  unready-names ready [] given k h = ground arith
  unready-names ready ((j, v) ∷ map) [] k h = absurd cc
  unready-names ready ((j, v) ∷ map) ((i, w) ∷ given) k h =
      ground (arith, unready-names ready map given k)

  no_members :
      (s : List String) → ((k : String) → Set.member strings k s ≡ false) → is_empty s ≡ true
  unfolding Set.member
  no_members [] h = refl
  no_members (k ∷ s) h = absurd (ground (arith, h k, same_refl strings k))

  -- A module with no submodules is ready for a call that gives all its inputs.
  pub ready-leaf :
      {A C : Type 0} (n a : ℕ) (st : Store A C) (m : Module A) (given : InputMap A)
      → st.modules a ≡ some m
      → has m.base ≡ true
      → m.submods ≡ []
      → keys given ≡ keys m.inputs
      → ready strings (suc n) st a given ≡ ok true
  unfolding ready
  ready-leaf {A} n a st m given there based alone same_keys =
      let go = λ (b : ℕ) (r : InputMap A). ready strings n st b r in
      let alone_ok =
        subst (AllValues (λ r. (b : ℕ) → r.module_ptr ≡ some b → has_ok (go b r.inputs) ≡ true))
          (sym alone) tt in
      elim (Result-cases (not_set strings go m given)) [
        | inr (x, e) ↦ absurd (ground (arith, not_set-ok strings go m given based alone_ok))
        | inl (found, e) ↦
            let listed = member-not_set go m given found in
            let inputs_empty = no_members found.inputs (λ k. ground (
              arith,
              (listed k e).0,
              unready-names (λ i. ok (is_ready i)) m.inputs given k same_keys,
            )) in
            let submods_empty =
              no_members found.submodules (λ k. ground (arith, (listed k e).1, alone)) in
            rw (there, e, inputs_empty, submods_empty) refl
      ]
