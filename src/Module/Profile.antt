-- ===== src/Module/Profile.antt =====
-- ModulePIMPL::profile_info (cxx/src/pluginplay/module/detail_/module_pimpl.ipp). What a module's
-- timer prints is a parameter. The recursion through the submodules takes fuel.
pub mod Lines
pub mod Listing
use Prim.Native.Char.{Char, code}
use Prim.Native.String
use plugin_play.Base.{ℕ, zero, suc, String, concat, Bool, List, [], ◌∷◌, ◌==◌, if◌then◌else◌}
use plugin_play.Base.Result.{Result, ok, err, overflow, runtime_error, or_throw, ◌>>=◌}
use plugin_play.Module.{SubmoduleMap, Store, deref}

abbrev pub is_break : Char → Bool
is_break c = code c == 10

abbrev pub extend : Char → List String → List String
extend c [] = String.◌∷◌ c "" ∷ []
extend c (token ∷ tokens) = String.◌∷◌ c token ∷ tokens

-- What std::getline reads until the stream is at its end.
unfoldable pub getlines : String → List String
getlines String.[] = []
getlines (String.◌∷◌ c s) =
    let tokens = getlines s in if is_break c then "" ∷ tokens else extend c tokens

abbrev pub tab : String
tab = "  "

-- The loop over the lines of a submodule's text.
unfoldable pub indented : List String → String
indented [] = ""
indented (token ∷ tokens) = concat (concat tab (concat tab (concat token "\n"))) (indented tokens)

module _ {A : Type 0} where
  -- The loop over the submodules; `go` is profile_info of a module.
  unfoldable pub profile_submods : (ℕ → Result String) → SubmoduleMap A → Result String
  unfolding getlines indented
  profile_submods go [] = ok ""
  profile_submods go ((key, r) ∷ submods) = do
    b ← or_throw r.module_ptr (runtime_error "Submodule is not ready")
    submod_prof_info ← go b
    rest ← profile_submods go submods
    ok (concat (concat tab (concat key "\n")) (concat (indented (getlines submod_prof_info)) rest))

  -- `timer` is the text of the timer of the module at an address.
  unfoldable pub profile_info : {C : Type 0} → (ℕ → String) → ℕ → Store A C → ℕ → Result String
  unfolding profile_submods
  profile_info timer zero st a = err overflow
  profile_info timer (suc n) st a = do
    m ← deref st a
    rest ← profile_submods (λ b. profile_info timer n st b) m.submods
    ok (concat (timer a) rest)
