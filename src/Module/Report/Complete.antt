-- ===== src/Module/Report/Complete.antt =====
-- What the text of print_not_ready tells, and how much fuel it needs.
use text.Mathlib.TextLemmas.{append-eq-nil_iff, append-ne-nil_of_right_ne-nil}
use plugin_play.Base.{
  ℕ, zero, suc, subst, ap, sym, ◌<◌, String, concat, Bool, true, false, ◌&&◌, ◌≡◌, ◌≢◌, refl, some,
  has, List, [], ◌∷◌, arith, All, Option-cases, Bool-cases, inl, inr, str_eq, eq_iff,
}
use plugin_play.Base.Order.{Order}
use plugin_play.Base.Map.{Map, keys, find, count-keys, AllValues, count, find-AllValues}
use plugin_play.Base.Set.{insert, insert-All}
use plugin_play.Base.Result.{Result, ok, has_ok, Result-cases, noexcept}
use plugin_play.Module.{Module, SubmoduleRequest, SubmoduleMap, InputMap, Store}
use plugin_play.Module.Ready.{NotSet, is_empty, not_set_guts, request_ready, not_set, ready}
use plugin_play.Module.Ready.Fuel.{IsLayered, below-AllValues, not_set-ok, ready-ok}
use plugin_play.Module.Report.{heading, submodule_items, print_not_ready, input_items}

str_eq_empty : (s : String) → s ≢ "" → str_eq s "" ≡ false
str_eq_empty s h = elim (Bool-cases (str_eq s "")) [
  | inl e ↦ absurd (h ((eq_iff s "").0 e))
  | inr e ↦ e
]

left_nonempty : (s t : String) → s ≢ "" → concat s t ≢ ""
left_nonempty s t h e = h (append-eq-nil_iff.0 e).0

heading_nonempty :
    (desc indent x text : String) (xs : List String) → heading desc indent (x ∷ xs) text ≢ ""
heading_nonempty desc indent x text xs =
    left_nonempty (concat (concat indent desc) " that are not ready:\n") text
      (λ e. cc ((append-eq-nil_iff.0 e).1))

-- The text is empty exactly if both lists are.
headings_empty :
    (indent : String) (xs ys : List String) (t u : String)
    → str_eq (concat (heading "Inputs" indent xs t) (heading "Submodules" indent ys u)) ""
      ≡ (is_empty xs && is_empty ys)
headings_empty indent [] [] t u = refl
headings_empty indent [] (y ∷ ys) t u =
    str_eq_empty (concat "" (heading "Submodules" indent (y ∷ ys) u))
      (append-ne-nil_of_right_ne-nil "" (heading_nonempty "Submodules" indent y u ys))
headings_empty indent (x ∷ xs) ys t u =
    str_eq_empty (concat (heading "Inputs" indent (x ∷ xs) t) (heading "Submodules" indent ys u)) (
      left_nonempty (heading "Inputs" indent (x ∷ xs) t) (heading "Submodules" indent ys u)
        (heading_nonempty "Inputs" indent x t xs))

-- What not_set lists are keys of the map.
not_set_guts-keys :
    (strings : Order String) {V : Type 0} (P : String → Type 0) (good : V → Result Bool)
    (map : Map String V) (probs found : List String)
    → All P (keys map)
    → All P probs
    → not_set_guts strings good map probs ≡ ok found
    → All P found
unfolding not_set_guts
not_set_guts-keys strings P good [] probs found h k e = subst (All P) (ground arith) k
not_set_guts-keys strings P good ((j, v) ∷ map) probs found (h, hs) k e =
    let insertion = insert strings j probs in
    elim (Result-cases (good v)) [
      | inl (true, f) ↦ not_set_guts-keys strings P good map probs found hs k (ground arith)
      | inl (false, f) ↦
          not_set_guts-keys strings P good map (insert strings j probs) found hs
            (insert-All strings P j probs h k) (ground arith)
      | inr (x, f) ↦ absurd (ground arith)
    ]

module _ (cim : Order String) {A : Type 0} where
  submodule_items-ok :
      (go : ℕ → String → Result String) (submods : SubmoduleMap A) (indent : String)
      (items : List String)
      → All (λ k. count cim k submods ≡ true) items
      → AllValues
          (λ r. (b : ℕ) → r.module_ptr ≡ some b → (deeper : String) → has_ok (go b deeper) ≡ true)
          submods
      → has_ok (submodule_items cim go submods indent items) ≡ true
  unfolding submodule_items
  submodule_items-ok go submods indent [] h deep = refl
  submodule_items-ok go submods indent (item ∷ items) (h, hs) deep =
      elim (Option-cases (find cim item submods)) [
        | inl e ↦ absurd (ground arith)
        | inr (r, e) ↦ elim (Option-cases r.module_ptr) [
          | inl f ↦ ground (arith, submodule_items-ok go submods indent items hs deep)
          | inr (b, f) ↦ ground (
            arith,
            submodule_items-ok go submods indent items hs deep,
            find-AllValues cim _ item r submods deep e b f (concat indent "  "),
          )
        ]
      ]

  module _ (strings : Order String) where
    not_set-keys :
        (go : ℕ → InputMap A → Result Bool) (m : Module A) (given : InputMap A) (found : NotSet)
        → not_set strings go m given ≡ ok found
        → All (λ k. count cim k m.submods ≡ true) found.submodules
    unfolding not_set
    not_set-keys go m given found h =
        let good = λ (r : SubmoduleRequest A). noexcept (request_ready strings go r) in
        elim (Result-cases (not_set_guts strings good m.submods [])) [
          | inr (x, e) ↦ absurd (ground arith)
          | inl (subs, e) ↦ subst (All (λ k. count cim k m.submods ≡ true)) (ground (arith, e)) (
              not_set_guts-keys strings (λ k. count cim k m.submods ≡ true) good m.submods [] subs
                (count-keys cim m.submods) tt e)
        ]

    module _ {C : Type 0} (st : Store A C) (rank : ℕ → ℕ) (layered : IsLayered st rank) where
      -- If every module has a base and no module is below itself, print_not_ready returns, with
      -- more fuel than the rank of the module, and its text is empty exactly if the module is
      -- ready.
      pub print_not_ready-ok :
          (n a : ℕ) (ps : InputMap A) (indent : String)
          → has (st.modules a) ≡ true
          → rank a < n
          → (text : String) × (print_not_ready cim strings n st a ps indent ≡ ok text)
            × (ready strings n st a ps ≡ ok (str_eq text ""))
      unfolding print_not_ready ready
      print_not_ready-ok zero a ps indent there low = absurd (omega arith)
      print_not_ready-ok (suc n) a ps indent there low = elim (Option-cases (st.modules a)) [
        | inl e ↦ absurd (ground arith)
        | inr (m, e) ↦
            let go = λ (b : ℕ) (r : InputMap A). ready strings n st b r in
            let inner = λ (b : ℕ) (deeper : String). print_not_ready cim strings n st b [] deeper in
            let indent2 = concat "  " indent in
            let ready_below =
              below-AllValues strings st rank layered (λ b r. has_ok (go b r.inputs) ≡ true) n a m
                (λ b r. ready-ok strings st rank layered n b r.inputs) e low in
            let told_below =
              below-AllValues strings st rank layered
                (λ b r. (deeper : String) → has_ok (inner b deeper) ≡ true) n a m
                (λ b r there low deeper.
                  ground (arith, (print_not_ready-ok n b [] deeper there low).1))
                e low in
            let items =
              λ (found : List String). submodule_items cim inner m.submods indent2 found in
            elim (Result-cases (not_set strings go m ps)) [
              | inr (x, f) ↦
                  absurd
                    (ground (arith, not_set-ok strings go m ps (layered.based a m e) ready_below))
              | inl (found, f) ↦ elim (Result-cases (items found.submodules)) [
                | inr (x, g) ↦ absurd (
                    ground (
                      arith,
                      submodule_items-ok inner m.submods indent2 found.submodules
                          (not_set-keys go m ps found f) told_below,
                    ))
                | inl (texts, g) ↦
                    let text =
                      concat
                        (heading "Inputs" indent found.inputs (input_items indent2 found.inputs))
                        (heading "Submodules" indent found.submodules texts) in
                    (
                      text,
                      rw (e, f, g) refl,
                      rw (e, f)
                          (ap ok (
                            sym (
                              headings_empty indent found.inputs found.submodules
                                (input_items indent2 found.inputs) texts))),
                    )
              ]
            ]
      ]
