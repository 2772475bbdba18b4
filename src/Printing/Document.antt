-- ===== src/Printing/Document.antt =====
-- document_module (cxx/src/pluginplay/printing/document_module.cpp).
pub mod Balance
use plugin_play.Base.{String, concat, none, some, List, [], ◌∷◌}
use plugin_play.Base.Order.{Order}
use plugin_play.Base.Set.{insert}
use plugin_play.Base.Result.{Result, ok, ◌>>=◌ as then}
use plugin_play.Base.Exec.{Exec, reads, ◌>>=◌, ◌>>◌}
use plugin_play.Types.{Rtti}
use plugin_play.Any.{AnyField}
use plugin_play.Module.{Module, ModuleBase, assert_mod}
use plugin_play.Printing.{Streams, Printer, write, print, start_section, finish_section}
use plugin_play.Printing.Inputs.{Table, print_inputs}
use plugin_play.Printing.Tables.{print_results, print_submods}

-- What the text is made with: the streams, the text of a value, the demangler, the tables of
-- libfort, and the order of std::set<std::string>.
pub record Style (A S : Type 0) : Type 0 where
  pub os : Streams S
  pub show : AnyField A → String
  pub demangle : Rtti → String
  pub table : Table
  pub strings : Order String

module _ {A S : Type 0} (style : Style A S) where
  citation_list : List String → S → S
  citation_list [] s = s
  citation_list (x ∷ rest) s =
      citation_list rest (style.os.wrapped "\n" (style.os.wrapped x (style.os.wrapped "- " s)))

  citation_page : List String → S → S
  unfolding citation_list
  citation_page [] s = style.os.wrapped "No citations" s
  citation_page (x ∷ rest) s = citation_list (x ∷ rest) s

  -- pt_set
  unfoldable pub type_lines : List Rtti → List String → List String
  unfolding insert
  type_lines [] lines = lines
  type_lines (t ∷ types) lines =
      type_lines types
        (insert style.strings (concat (concat "- ``" (style.demangle t)) "``\n") lines)

  print_lines : List String → S → S
  print_lines [] s = s
  print_lines (x ∷ rest) s = print_lines rest (style.os.verbatim x s)

  type_page : List Rtti → S → S
  unfolding type_lines print_lines
  type_page [] s = style.os.wrapped "The module satisfies no property types.\n\n" s
  type_page (t ∷ types) s = print_lines (type_lines (t ∷ types) []) (
      style.os.wrapped "The following is a list of property types that this module satisfies.\n\n"
        s)

  abbrev pub description_page : ModuleBase A → String
  description_page base = elim base.desc [ none ↦ "No description provided" | some desc ↦ desc ]

  unfoldable pub print_module : String → Module A → Exec (Printer S) (Unit {0})
  unfolding start_section finish_section citation_page type_page print_inputs print_results
      print_submods
  print_module name m = do
    print style.os (
        concat "..   This page is autogenerated by pluginplay::document_module. Any changes made\n"
          "..   to this document will be overwritten the next time it is generated.\n\n")
    start_section style.os name
    print style.os "\n"
    base ← reads (λ p. assert_mod m)
    print style.os (description_page base)
    print style.os "\n\n"
    start_section style.os "Please Cite"
    print style.os "\n"
    write style.os (citation_page base.citations)
    print style.os "\n\n"
    finish_section style.os
    start_section style.os "Property Types"
    print style.os "\n"
    write style.os (type_page m.property_types)
    print style.os "\n"
    finish_section style.os
    print_inputs style.os style.show style.table m.inputs
    print style.os "\n"
    print_results style.os style.demangle style.table base.results
    print_submods style.os style.demangle style.table m.submods
    finish_section style.os

  -- the printer that document_module makes
  abbrev pub new_printer : Printer S
  new_printer = record { section = 0; out = style.os.blank }

  unfoldable pub document_module : String → Module A → Result String
  unfolding print_module
  document_module name m =
      let (done, p) = print_module name m new_printer in then done (λ _. ok (style.os.text p.out))
