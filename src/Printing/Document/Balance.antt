-- ===== src/Printing/Document/Balance.antt =====
-- The sections of a page.
use plugin_play.Base.{
  ℕ, String, ◌≡◌, ◌∙◌, arith, refl, false, none, some, has, [], ◌∷◌, Option-cases, inl, inr,
  if◌then◌else◌,
}
use plugin_play.Base.Result.{ok, has_ok}
use plugin_play.Base.Exec.{Exec, ◌>>◌}
use plugin_play.Any.{AnyField}
use plugin_play.Module.{Module, ModuleBase, InputMap}
use plugin_play.Printing.{Streams, Printer, print, finish_section}
use plugin_play.Printing.Inputs.{Table, input_full_list, detailed_descriptions, print_inputs}
use plugin_play.Printing.Tables.{print_results, print_submods}
use plugin_play.Printing.Document.{Style, new_printer, print_module, document_module}

module _ {S : Type 0} where
  -- Code that throws no exception where it starts at one depth of sections, and ends at another.
  abbrev pub IsBetween : ℕ → ℕ → Exec (Printer S) (Unit {0}) → Type 0
  IsBetween first last run =
      (s : S)
      → (t : S) × (run (record { section = first; out = s })
          ≡ (ok tt, record { section = last; out = t }))

  >>-IsBetween :
      (a b c : ℕ) (run next : Exec (Printer S) (Unit {0}))
      → IsBetween a b run
      → IsBetween b c next
      → IsBetween a c (run >> next)
  >>-IsBetween a b c run next h k s = let (t, e) = h s in let (u, f) = k t in (u, rw e f)

module _ {A S : Type 0} (os : Streams S) (show : AnyField A → String) where
  input_full_list-IsBetween : (inputs : InputMap A) → IsBetween 3 3 (input_full_list os show inputs)
  unfolding input_full_list
  input_full_list-IsBetween [] s = (s, refl)
  input_full_list-IsBetween ((name, i) ∷ rest) s = input_full_list-IsBetween rest _

  detailed_descriptions-IsBetween :
      (inputs : InputMap A) → IsBetween 3 3 (detailed_descriptions os show inputs)
  unfolding detailed_descriptions
  detailed_descriptions-IsBetween [] s = (_, refl)
  detailed_descriptions-IsBetween (i ∷ inputs) s = input_full_list-IsBetween (i ∷ inputs) _

  print_inputs-IsBetween :
      (table : Table) (inputs : InputMap A) → IsBetween 1 1 (print_inputs os show table inputs)
  unfolding print_inputs finish_section
  print_inputs-IsBetween table inputs s =
      let closes : IsBetween 3 1 (finish_section os >> finish_section os) = λ s. (s, refl) in
      >>-IsBetween 3 3 1 (detailed_descriptions os show inputs) _
        (detailed_descriptions-IsBetween inputs) closes _

module _ {A S : Type 0} (style : Style A S) where
  -- print_module from the inputs of the module on
  rest_of_page : Module A → ModuleBase A → Exec (Printer S) (Unit {0})
  rest_of_page m base = do
    print_inputs style.os style.show style.table m.inputs
    print style.os "\n"
    print_results style.os style.demangle style.table base.results
    print_submods style.os style.demangle style.table m.submods
    finish_section style.os

  rest_of_page-IsBetween :
      (m : Module A) (base : ModuleBase A) → IsBetween 1 0 (rest_of_page m base)
  unfolding rest_of_page print_results print_submods finish_section
  rest_of_page-IsBetween m base =
      >>-IsBetween 1 1 0 (print_inputs style.os style.show style.table m.inputs) _
        (print_inputs-IsBetween style.os style.show style.table m.inputs) (λ s. (_, refl))

  print_module-IsBetween :
      (name : String) (m : Module A) (base : ModuleBase A)
      → m.base ≡ some base
      → IsBetween 0 0 (print_module style name m)
  unfolding print_module rest_of_page
  print_module-IsBetween name m base h s = rw h (rest_of_page-IsBetween m base _)

  print_module-none :
      (name : String) (m : Module A)
      → m.base ≡ none
      → (has_ok (print_module style name m (new_printer style)).0 ≡ false)
        × ((print_module style name m (new_printer style)).1.section ≡ 1)
  unfolding print_module
  print_module-none name m h = (rw h refl, rw h refl)

  -- document_module throws exactly if the module has no implementation. However long the module's
  -- lists are, the printer has an underline and an overline for each section that a page opens,
  -- and at the end of a page all sections are closed; where document_module throws, the section of
  -- the page is the one that is open.
  pub document_module_iff :
      (name : String) (m : Module A)
      → (has_ok (document_module style name m) ≡ has m.base)
        × ((print_module style name m (new_printer style)).1.section
            ≡ (if has m.base then 0 else 1))
  unfolding document_module
  document_module_iff name m = elim (Option-cases m.base) [
    | inl n ↦
        let branch : m.base ≡ none → 1 ≡ (if has m.base then 0 else 1) = λ e. rw (e) refl in
        let (throws, one) = print_module-none name m n in
        (ground (arith, throws, n), one ∙ branch n)
    | inr (base, h) ↦
        let (t, e) = print_module-IsBetween name m base h style.os.blank in
        (rw (e, h) refl, rw (e, h) refl)
  ]
