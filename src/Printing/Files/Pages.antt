-- ===== src/Printing/Files/Pages.antt =====
-- The files that document_modules leaves.
use plugin_play.Base.{
  ℕ, String, true, false, ◌≡◌, refl, arith, some, has, List, [], ◌∷◌, ◌++◌, inl, inr,
}
use plugin_play.Base.Order.{Order, same, same_refl}
use plugin_play.Base.Map.{Map, find, assign, find-assign}
use plugin_play.Base.Result.{ok, Result-cases}
use plugin_play.Module.{Module, Store}
use plugin_play.Printing.Document.{Style, document_module}
use plugin_play.Printing.Document.Balance.{document_module_iff}
use plugin_play.Printing.Names.{page_file, clean_name}
use plugin_play.Printing.Files.{Files, generate_index_file, document_each, document_modules}

module _ {A C S : Type 0} (style : Style A S) (names : Order String) (st : Store A C) where
  -- Every pointer points to a module that has an implementation.
  abbrev pub AreModules : Map String ℕ → Type 0
  AreModules [] = Unit
  AreModules ((name, a) ∷ rest) =
      ((m : Module A) × (st.modules a ≡ some m) × (has m.base ≡ true)) × AreModules rest

  -- No module has its page in the file.
  abbrev pub Avoids : String → Map String ℕ → Type 0
  Avoids file [] = Unit
  Avoids file ((name, a) ∷ rest) = (same names (page_file name) file ≡ false) × Avoids file rest

  page_of :
      (name : String) (m : Module A)
      → has m.base ≡ true
      → (page : String) × (document_module style name m ≡ ok page)
  page_of name m h = elim (Result-cases (document_module style name m)) [
    | inl found ↦ found
    | inr (e, thrown) ↦ absurd (ground (arith, document_module_iff style name m))
  ]

  document_each-keeps :
      (modules : Map String ℕ) (toc : List String) (files : Files) (file : String)
      → AreModules modules
      → Avoids file modules
      → (toc' : List String) × (files' : Files) × (document_each style names st modules toc files
          ≡ (ok toc', files'))
        × (find names file files' ≡ find names file files)
  unfolding document_each
  document_each-keeps [] toc files file are avoids = (toc, files, refl, refl)
  document_each-keeps ((name, a) ∷ rest) toc files file ((m, found, based), are) avoids =
      let (page, docs) = page_of name m based in
      let (toc', files', runs, keeps) =
        document_each-keeps rest (toc ++ (clean_name name ∷ []))
          (assign names (page_file name) page files) file are avoids.1 in
      (
        toc',
        files',
        rw (found, docs) runs,
        ground (arith, keeps, find-assign names (page_file name) file page files, avoids.0),
      )

  document_each-file :
      (before after : Map String ℕ) (toc : List String) (files : Files) (name : String) (a : ℕ)
      (m : Module A) (page : String)
      → AreModules (before ++ ((name, a) ∷ after))
      → st.modules a ≡ some m
      → document_module style name m ≡ ok page
      → Avoids (page_file name) after
      → (toc' : List String) × (files' : Files) × (document_each style names st
            (before ++ ((name, a) ∷ after))
            toc
            files
          ≡ (ok toc', files'))
        × (find names (page_file name) files' ≡ some page)
  unfolding document_each
  document_each-file [] after toc files name a m page are found docs avoids =
      let (toc', files', runs, keeps) =
        document_each-keeps after (toc ++ (clean_name name ∷ []))
          (assign names (page_file name) page files) (page_file name) are.1 avoids in
      (
        toc',
        files',
        rw (found, docs) runs,
        ground (
          arith,
          keeps,
          find-assign names (page_file name) (page_file name) page files,
          same_refl names (page_file name),
        ),
      )
  document_each-file ((other, b) ∷ before) after toc files name a m page are found docs avoids =
      let (n, there, based) = are.0 in
      let (text, its) = page_of other n based in
      let (toc', files', runs, holds) =
        document_each-file before after (toc ++ (clean_name other ∷ []))
          (assign names (page_file other) text files) name a m page are.1 found docs avoids in
      (toc', files', rw (there, its) runs, holds)

  -- If every module of the manager has an implementation, document_modules returns, and the file
  -- of a module holds that module's page, provided that the file is not index.rst and that no
  -- later module has the same file.
  pub find-document_modules :
      (before after : Map String ℕ) (files : Files) (name : String) (a : ℕ) (m : Module A)
      → AreModules (before ++ ((name, a) ∷ after))
      → st.modules a ≡ some m
      → has m.base ≡ true
      → Avoids (page_file name) after
      → same names "index.rst" (page_file name) ≡ false
      → (page : String) × (files' : Files) × (document_module style name m ≡ ok page)
        × (document_modules style names st (before ++ ((name, a) ∷ after)) files ≡ (ok tt, files'))
        × (find names (page_file name) files' ≡ some page)
  unfolding document_modules
  find-document_modules before after files name a m are found based avoids index =
      let (page, docs) = page_of name m based in
      let (toc, written, runs, holds) =
        document_each-file before after [] files name a m page are found docs avoids in
      (
        page,
        assign names "index.rst" (generate_index_file toc) written,
        docs,
        rw runs refl,
        ground (
          arith,
          holds,
          index,
          find-assign names "index.rst" (page_file name) (generate_index_file toc) written,
        ),
      )
