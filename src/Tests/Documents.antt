-- ===== src/Tests/Documents.antt =====
-- The theorems on the documentation of modules, at two modules of a store.
use plugin_play.Base.{if◌then◌else◌, ℕ, String, concat, ◌≡◌, refl, some, has, [], ◌∷◌, ◌++◌}
use plugin_play.Base.Order.{same, less_nat}
use plugin_play.Base.Map.{find}
use plugin_play.Base.TextOrder.{text_order, less_text}
use plugin_play.Base.Result.{ok, has_ok}
use plugin_play.Printing.{Streams}
use plugin_play.Printing.Names.{page_file, replace, replace_invalid_chars}
use plugin_play.Printing.Files.{Files, document_modules}
use plugin_play.Printing.Files.Pages.{find-document_modules}
use plugin_play.Printing.Document.{print_module, new_printer, Style, document_module}
use plugin_play.Printing.Document.Balance.{document_module_iff}
use plugin_play.Printing.Mermaid.{create_mermaid_graph}
use plugin_play.ModuleManager.{Manager}
use plugin_play.Tests.Managers.{manager, new_uuid, new_cache}
use plugin_play.Tests.Data.{print, demangle, leaf, caller, asker, store}

-- a stream that does not wrap
abbrev plain : Streams String
plain = record {
  blank = "";
  verbatim = λ x s. concat s x;
  wrapped = λ x s. concat s x;
  text = λ s. s;
}

abbrev style : Style ℕ String
style = record {
  os = plain;
  show = print;
  demangle = demangle;
  table = λ rows. "a table\n";
  strings = text_order;
}

document_module_iff_example :
    (has_ok (document_module style "Square" leaf) ≡ has leaf.base)
    × ((print_module style "Square" leaf (new_printer style)).1.section
        ≡ (if has leaf.base then 0 else 1))
document_module_iff_example = document_module_iff style "Square" leaf

find-document_modules_example :
    (page : String) × (files : Files) × (document_module style "a/b" leaf ≡ ok page)
    × (document_modules style text_order store
          ((("Prism", 1) ∷ []) ++ (("a/b", 0) ∷ ("Cone", 2) ∷ []))
          []
        ≡ (ok tt, files))
    × (find text_order (page_file "a/b") files ≡ some page)
unfolding replace_invalid_chars replace same less_text less_nat
find-document_modules_example =
    find-document_modules style text_order store (("Prism", 1) ∷ []) (("Cone", 2) ∷ []) [] "a/b" 0
      leaf ((caller, refl, refl), ((leaf, refl, refl), ((asker, refl, refl), tt))) refl refl
      (refl, tt) refl

-- the file of a module whose name is no name of a file
page_file-slash : page_file "a/b" ≡ "a_b.rst"
unfolding replace_invalid_chars replace
page_file-slash = refl

-- "Prism", which uses "Square", and "Square"
abbrev two_modules : Manager ℕ ℕ
two_modules = record manager { modules = ("Prism", 1) ∷ ("Square", 0) ∷ []; defaults = [] }

graph :
    (create_mermaid_graph text_order text_order demangle new_uuid new_cache 3 3 two_modules).0
    ≡ ok (
        concat "\n```mermaid\nflowchart LR\n\tAAA[Prism]\n\tAAA-->|area| AAB[Square]\n```"
          "\n```mermaid\nflowchart LR\n\tAAC[Square]\n```")
unfolding create_mermaid_graph find same less_text less_nat
graph = refl
