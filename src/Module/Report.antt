-- ===== src/Module/Report.antt =====
-- print_not_ready (cxx/src/pluginplay/module/module.cpp): the text on what keeps a module from
-- being ready. Its recursion through the submodules takes fuel, as that of `ready` does.
pub mod Complete
use plugin_play.Base.{ℕ, zero, suc, String, concat, none, some, List, [], ◌∷◌}
use plugin_play.Base.Order.{Order}
use plugin_play.Base.Map.{find}
use plugin_play.Base.Result.{Result, ok, err, overflow, out_of_range, or_throw, ◌>>=◌}
use plugin_play.Module.{SubmoduleMap, InputMap, Store, deref}
use plugin_play.Module.Ready.{ready, not_set}

abbrev pub heading : String → String → List String → String → String
heading desc indent [] text = ""
heading desc indent (x ∷ items) text =
    concat (concat (concat indent desc) " that are not ready:\n") text

unfoldable pub input_items : String → List String → String
input_items indent2 [] = ""
input_items indent2 (item ∷ items) =
    concat (concat (concat indent2 item) "\n") (input_items indent2 items)

-- `cim` is the comparator of CaseInsensitiveMap, `strings` that of std::set<std::string>.
module _ (cim : Order String) {A : Type 0} where
  -- `go` is print_not_ready of the module that a request leads to.
  unfoldable pub submodule_items :
      (ℕ → String → Result String) → SubmoduleMap A → String → List String → Result String
  unfolding find
  submodule_items go submods indent2 [] = ok ""
  submodule_items go submods indent2 (item ∷ items) = do
    r ← or_throw (find cim item submods) (out_of_range "map::at")
    why ← elim r.module_ptr [
      | none ↦ ok " is not set.\n"
      | some b ↦ do inner ← go b (concat indent2 "  "); ok (concat ":\n" inner)
    ]
    rest ← submodule_items go submods indent2 items
    ok (concat (concat (concat indent2 item) why) rest)

  module _ (strings : Order String) where
    unfoldable pub print_not_ready :
        {C : Type 0} → ℕ → Store A C → ℕ → InputMap A → String → Result String
    unfolding not_set ready input_items submodule_items
    print_not_ready zero st a ps indent = err overflow
    print_not_ready (suc n) st a ps indent = do
      m ← deref st a
      not_readies ← not_set strings (λ b r. ready strings n st b r) m ps
      let indent2 = concat "  " indent
      texts ←
          submodule_items (λ b deeper. print_not_ready n st b [] deeper) m.submods indent2
            not_readies.submodules
      ok (
          concat
            (heading "Inputs" indent not_readies.inputs (input_items indent2 not_readies.inputs))
            (heading "Submodules" indent not_readies.submodules texts))
