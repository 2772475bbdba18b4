-- ===== src/Printing/Tables.antt =====
-- print_results and print_submods (cxx/src/pluginplay/printing/detail_/print_results.cpp and
-- print_submodules.cpp).
use plugin_play.Base.{String, concat, Option, none, some, List, [], ◌∷◌}
use plugin_play.Base.Exec.{Exec, ◌>>◌}
use plugin_play.Types.{Rtti}
use plugin_play.Module.{ResultMap, SubmoduleMap}
use plugin_play.Printing.{Streams, Printer, write, print, start_section, finish_section}
use plugin_play.Printing.Inputs.{or_na, Table}

unfoldable pub result_desc : String
result_desc =
    concat
      (concat
        "This section tabulates the full list of results that the module returns. The columns respectively are:\n\n- Key: What the result is called\n- Type: The C++ type of the result\n"
        "- Description: What the result is/how it was computed.\n\n.. note::\n\n   A given property type will only return a subset of the available results. \n")
      "   Additional results can be accessed by using other property types or by using\n   the Module class's advanced API."

unfoldable pub submod_desc : String
submod_desc =
    concat
      "This section details the full list of submodules that the module uses. For each submodule we have listed:\n\n- Key : The key used to refer to this particular callback.\n"
      "- Property Type : The property type that the submodule must satisfy.\n- Description : How the module will use the submodule.\n\n"

-- `demangle` is utilities::printing::Demangler::demangle.
abbrev pub type_name : (Rtti → String) → Option Rtti → String
type_name demangle none = "N/A"
type_name demangle (some t) = demangle t

module _ {A : Type 0} (demangle : Rtti → String) where
  unfoldable pub result_rows : ResultMap A → List (List String)
  result_rows [] = []
  result_rows ((name, r) ∷ rest) =
      (name ∷ type_name demangle r.type ∷ or_na r.desc ∷ []) ∷ result_rows rest

  unfoldable pub result_table : Table → ResultMap A → String
  unfolding result_rows
  result_table table results = table (("Key" ∷ "Type" ∷ "Description" ∷ []) ∷ result_rows results)

  unfoldable pub submod_rows : SubmoduleMap A → List (List String)
  submod_rows [] = []
  submod_rows ((name, r) ∷ rest) =
      (name ∷ type_name demangle r.type ∷ or_na r.desc ∷ []) ∷ submod_rows rest

  unfoldable pub submod_table : Table → SubmoduleMap A → String
  unfolding submod_rows
  submod_table table submods =
      table (("Key" ∷ "Property Type" ∷ "Description" ∷ []) ∷ submod_rows submods)

module _ {A S : Type 0} (os : Streams S) (demangle : Rtti → String) (table : Table) where
  result_page : ResultMap A → S → S
  unfolding result_table result_desc
  result_page [] s = os.wrapped "The module defines no results.\n\n" s
  result_page (r ∷ results) s = os.wrapped "\n\n" (
      os.verbatim (result_table demangle table (r ∷ results))
        (os.wrapped "\n\n" (os.wrapped result_desc s)))

  unfoldable pub print_results : ResultMap A → Exec (Printer S) (Unit {0})
  unfolding start_section finish_section result_page
  print_results results = do
    start_section os "Module Results"
    print os "\n"
    write os (result_page results)
    finish_section os

  submod_page : SubmoduleMap A → S → S
  unfolding submod_table submod_desc
  submod_page [] s = os.wrapped "The module defines no submodules.\n\n" s
  submod_page (r ∷ submods) s =
      os.verbatim (submod_table demangle table (r ∷ submods)) (os.wrapped submod_desc s)

  unfoldable pub print_submods : SubmoduleMap A → Exec (Printer S) (Unit {0})
  unfolding start_section finish_section submod_page
  print_submods submods = do
    start_section os "Submodules"
    print os "\n"
    write os (submod_page submods)
    finish_section os
