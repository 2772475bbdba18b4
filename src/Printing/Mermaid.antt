-- ===== src/Printing/Mermaid.antt =====
-- The graph of a manager's modules (cxx/src/pluginplay/printing/mermaid.cpp), for the program
-- mermaid. A std::string with the code of a node is the list of its characters' numbers.
pub mod Codes
use Prim.Native.String
use Prim.Native.String.{char_at}
use plugin_play.Base.{
  ℕ, zero, suc, ◌-◌, String, concat, Bool, true, false, none, some, List, [], ◌∷◌, ◌==◌,
  if◌then◌else◌,
}
use plugin_play.Base.Order.{Order}
use plugin_play.Base.Map.{keys, find}
use plugin_play.Base.Result.{ok, overflow, fault, bad_optional_access, or_throw}
use plugin_play.Base.Exec.{Exec, pure, throw, reads, ◌>>=◌, ◌>>◌}
use plugin_play.Types.{Rtti}
use plugin_play.Module.{assert_mod, deref}
use plugin_play.ModuleManager.{Manager, Managed, at, get_keys}

-- The loop of add_letter, from the last character to the first, and whether it goes on.
unfoldable pub add_from_end : List ℕ → List ℕ × Bool
add_from_end [] = ([], true)
add_from_end (c ∷ code) =
    let (later, goes_on) = add_from_end code in
    if goes_on
    then (if c == 90 then (65 ∷ later, true) else (suc c ∷ later, false))
    else (c ∷ later, false)

unfoldable pub add_letter : List ℕ → List ℕ
unfolding add_from_end
add_letter code = (add_from_end code).0

-- "AAA"
abbrev pub first_code : List ℕ
first_code = 65 ∷ 65 ∷ 65 ∷ []

-- The text of a code, whose characters are capital letters.
abbrev pub code_text : List ℕ → String
code_text [] = ""
code_text (c ∷ code) = String.◌∷◌ (char_at "ABCDEFGHIJKLMNOPQRSTUVWXYZ" (c - 65)) (code_text code)

-- the stream and module_code: what was written, and the code of the last node
pub record Drawing : Type 0 where
  pub text : String
  pub code : List ℕ

abbrev pub emit : String → Drawing → Drawing
emit text d = record d { text = concat d.text text }

abbrev pub next_node : Drawing → Drawing
next_node d = record d { code = add_letter d.code }

-- the parameters of the module manager
module _ {A C : Type 0} (cim strings : Order String) (demangle : Rtti → String) (uuid : ℕ → String)
    (new_cache : ℕ → String → C → C) where
  -- the loop of print_submods over the submodules of the module at an address, which are read when
  -- their turn comes; `go` is print_submods.
  unfoldable pub draw_submods :
      (String → Drawing → Managed A C Drawing)
      → List ℕ
      → ℕ
      → List String
      → Drawing
      → Managed A C Drawing
  unfolding add_letter
  draw_submods go main_mod_code a [] d = pure d
  draw_submods go main_mod_code a (key ∷ submods) d = do
    m ← reads (λ mm. deref mm.store a)
    value ← reads (λ mm. or_throw (find cim key m.submods) fault)
    let arrow =
        concat (concat (concat "\n\t" (code_text main_mod_code)) "-->")
          (concat (concat "|" key) "| ")
    let node = next_node (emit arrow d)
    drawn ← elim value.module_ptr [
      | none ↦ pure (emit (concat (code_text node.code) "[No Submodule associated with Key]") node)
      | some b ↦ do
        sub ← reads (λ mm. deref mm.store b)
        name ← reads (λ mm. or_throw sub.name bad_optional_access)
        go name (emit (concat (concat (concat (code_text node.code) "[") name) "]") node)
    ]
    draw_submods go main_mod_code a submods drawn

  -- `fuel` bounds the levels of submodules that `at` follows.
  unfoldable pub print_submods : ℕ → ℕ → String → Drawing → Managed A C Drawing
  unfolding draw_submods at
  print_submods fuel zero module_key d = throw overflow
  print_submods fuel (suc n) module_key d = do
    a ← at cim strings demangle uuid new_cache fuel module_key
    m ← reads (λ mm. deref mm.store a)
    base ← reads (λ mm. assert_mod m)
    draw_submods (λ key d. print_submods fuel n key d) d.code a (keys m.submods) d

  -- the loop of create_mermaid_graph
  unfoldable pub draw_modules : ℕ → ℕ → List String → Drawing → Managed A C Drawing
  unfolding print_submods add_letter
  draw_modules fuel n [] d = pure d
  draw_modules fuel n (mod_key ∷ modules) d = do
    let head =
        concat
          (concat (concat (concat "\n```mermaid\nflowchart LR\n\t" (code_text d.code)) "[") mod_key)
          "]"
    drawn ← print_submods fuel n mod_key (emit head d)
    draw_modules fuel n modules (next_node (emit "\n```" drawn))

  draw_graph : ℕ → ℕ → List String → Managed A C Drawing
  unfolding draw_modules
  draw_graph fuel n [] =
      pure (record { text = "No modules are loaded, load some modules!"; code = first_code })
  draw_graph fuel n (k ∷ modules) =
      draw_modules fuel n (k ∷ modules) (record { text = ""; code = first_code })

  unfoldable pub create_mermaid_graph : ℕ → ℕ → Managed A C String
  unfolding draw_graph get_keys
  create_mermaid_graph fuel n = do
    modules ← reads (λ mm. ok (get_keys cim strings demangle uuid new_cache mm))
    drawn ← draw_graph fuel n modules
    pure drawn.text
