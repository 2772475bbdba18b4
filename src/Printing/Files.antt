-- ===== src/Printing/Files.antt =====
-- document_modules (cxx/src/pluginplay/printing/document_modules.cpp) and generate_index_file
-- (cxx/src/pluginplay/printing/helpers.cpp). The files are those of the directory `docs_path`,
-- which can be written; names without a slash are entries of it.
pub mod Pages
use plugin_play.Base.{ℕ, String, concat, List, [], ◌∷◌, ◌++◌}
use plugin_play.Base.Order.{Order}
use plugin_play.Base.Map.{Map, assign}
use plugin_play.Base.Exec.{Exec, pure, reads, modify, ◌>>=◌, ◌>>◌}
use plugin_play.Module.{Store, deref}
use plugin_play.Printing.Names.{replace_invalid_chars, clean_name, page_file}
use plugin_play.Printing.Document.{Style, document_module}

-- generate_index_file
unfoldable pub toc_lines : List String → String
toc_lines [] = ""
toc_lines (file ∷ toc) = concat (concat "\n   " file) (toc_lines toc)

abbrev pub generate_index_file : List String → String
generate_index_file toc =
    concat "***********\nModules API\n***********\n\n.. toctree::\n   :maxdepth: 1\n"
      (toc_lines toc)

-- The files, by their names under the order `names`.
abbrev pub Files : Type 0
Files = Map String String

module _ {A C S : Type 0} (style : Style A S) (names : Order String) (st : Store A C) where
  -- the loop over the module manager; it gives `toc`
  unfoldable pub document_each : Map String ℕ → List String → Exec Files (List String)
  unfolding replace_invalid_chars document_module assign
  document_each [] toc = pure toc
  document_each ((name, a) ∷ rest) toc = do
    m ← reads (λ files. deref st a)
    docs ← reads (λ files. document_module style name m)
    modify (assign names (page_file name) docs)
    document_each rest (toc ++ (clean_name name ∷ []))

  unfoldable pub document_modules : Map String ℕ → Exec Files (Unit {0})
  unfolding document_each toc_lines assign
  document_modules modules = do
    toc ← document_each modules []
    modify (assign names "index.rst" (generate_index_file toc))
