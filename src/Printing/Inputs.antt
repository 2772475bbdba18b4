-- ===== src/Printing/Inputs.antt =====
-- print_inputs (cxx/src/pluginplay/printing/detail_/print_inputs.cpp).
use plugin_play.Base.{String, concat, Option, none, some, has, List, [], ◌∷◌, if◌then◌else◌}
use plugin_play.Base.Exec.{Exec, pure, ◌>>◌}
use plugin_play.Any.{AnyField}
use plugin_play.Fields.ModuleInput.{ModuleInput, check_descriptions}
use plugin_play.Module.{InputMap}
use plugin_play.Printing.{
  Streams, Printer, write, print, print_verbatim, start_section, finish_section,
}

-- "N/A" in place of what is not set
abbrev pub or_na : Option String → String
or_na none = "N/A"
or_na (some s) = s

-- The rows of a fort::utf8_table in NWX_RST_STYLE, its header first, and `to_string()`.
abbrev pub Table : Type 0
Table = List (List String) → String

unfoldable pub input_desc : String
input_desc =
    concat
      "This section details the full list of inputs that the module accepts. Inputs that are not listed as optional must have their value set before the module can be run. "
      "Inputs can be set manually by calling the module's ``change_input`` function or by passing arguments to a property type."

unfoldable pub input_quick_ref_desc : String
input_quick_ref_desc =
    concat
      "The following table provides a quick summary of the inputs available to this module. The columns are:\n\n- ``Key``: The key used to retrieve the option,\n"
      "- ``Default`` : The initial value, if one exists, and\n- ``Description`` : A human readable description of what the option is used for.\n"

unfoldable pub input_full_list_desc : String
input_full_list_desc =
    concat
      (concat
        "The following subsections provide detailed descriptions of each input recognized by this module. The subsection headings are the name of the input. Within each subsection we list:\n\n"
        "- ``Description`` : A human readable description of what the option is used for.\n- ``Default Value`` : The initial value, if one exists.\n")
      (concat
        "- ``Optional?`` : Whether the value must be set inorder for the module to run.\n- ``Opaque?`` : Does the value of the input influence memoization?.\n"
        "- ``Domain Restrictions`` : Criteria a value must obey to be deemed valid.")

-- `show` is what AnyField::print writes of a value.
module _ {A : Type 0} (show : AnyField A → String) where
  -- ModuleInput::str, or "N/A" if no value is set
  abbrev pub default_value : ModuleInput A → String
  default_value i = if has i.value then show i.value else "N/A"

  -- the rows of input_quick_ref_table
  unfoldable pub input_rows : InputMap A → List (List String)
  input_rows [] = []
  input_rows ((name, i) ∷ rest) = (name ∷ default_value i ∷ or_na i.desc ∷ []) ∷ input_rows rest

  unfoldable pub input_quick_ref_table : Table → InputMap A → String
  unfolding input_rows
  input_quick_ref_table table inputs =
      table (("Key" ∷ "Default" ∷ "Description" ∷ []) ∷ input_rows inputs)

module _ {A S : Type 0} (os : Streams S) (show : AnyField A → String) where
  -- the list of the checks' descriptions
  unfoldable pub restrictions : List String → S → S
  restrictions [] s = s
  restrictions (desc ∷ rest) s =
      restrictions rest (os.verbatim (concat (concat "  - " desc) "\n\n") s)

  unfoldable pub domain : List String → S → S
  unfolding restrictions
  domain [] s = os.wrapped "- Domain Restrictions : N/A\n" s
  domain (desc ∷ rest) s = restrictions (desc ∷ rest) (os.wrapped "- Domain Restrictions :\n\n" s)

  -- input_full_list
  unfoldable pub input_full_list : InputMap A → Exec (Printer S) (Unit {0})
  unfolding start_section finish_section domain check_descriptions
  input_full_list [] = pure tt
  input_full_list ((name, i) ∷ rest) = do
    start_section os name
    print os "\n"
    print_verbatim os (concat (concat "- Description : " (or_na i.desc)) "\n")
    print os (concat (concat "- Default Value : " (default_value show i)) "\n")
    print os (concat (concat "- Optional? : " (if i.optional then "True" else "False")) "\n")
    print os (concat (concat "- Opaque? : " (if i.transparent then "False" else "True")) "\n")
    write os (domain (check_descriptions i))
    finish_section os
    input_full_list rest

  unfoldable pub quick_reference : Table → InputMap A → S → S
  unfolding input_quick_ref_table input_quick_ref_desc
  quick_reference table [] s = os.wrapped "The module defines no inputs.\n\n" s
  quick_reference table (i ∷ inputs) s = os.wrapped "\n\n" (
      os.verbatim (input_quick_ref_table show table (i ∷ inputs))
        (os.wrapped "\n" (os.wrapped input_quick_ref_desc s)))

  unfoldable pub detailed_descriptions : InputMap A → Exec (Printer S) (Unit {0})
  unfolding input_full_list input_full_list_desc
  detailed_descriptions [] = print os "\nThe module defines no inputs.\n"
  detailed_descriptions (i ∷ inputs) = do
    print os "\n"
    print os input_full_list_desc
    print os "\n\n"
    input_full_list (i ∷ inputs)

  unfoldable pub print_inputs : Table → InputMap A → Exec (Printer S) (Unit {0})
  unfolding quick_reference detailed_descriptions input_desc
  print_inputs table inputs = do
    start_section os "Module Inputs"
    print os "\n"
    print os input_desc
    print os "\n\n"
    start_section os "Quick Reference"
    print os "\n"
    write os (quick_reference table inputs)
    finish_section os
    start_section os "Detailed Descriptions"
    detailed_descriptions inputs
    finish_section os
    finish_section os
