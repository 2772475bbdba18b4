-- ===== src/ModuleManager/Equal.antt =====
-- ModuleManagerPIMPL::operator== (cxx/src/pluginplay/module_manager/detail_/
-- module_manager_pimpl.ipp). The modules of both managers are in the store `st`.
pub mod Agrees
use plugin_play.Base.{
  ℕ, String, Bool, true, false, ◌&&◌, Option, none, some, List, [], ◌∷◌, length, ◌==◌, str_eq,
  if◌then◌else◌,
}
use plugin_play.Base.Order.{Order}
use plugin_play.Base.Map.{Map, find}
use plugin_play.Base.Equal.{list_eq}
use plugin_play.Base.Result.{Result, ok, ◌>>=◌}
use plugin_play.Types.{Rtti, rtti_same, rtti_order}
use plugin_play.Any.{Python, Values}
use plugin_play.Module.{Store}
use plugin_play.Module.Equal.{and_then, base_eq, equal_at}
use plugin_play.ModuleManager.{Manager}

-- a loop over the entries of `rhs` that returns false at the first one which `lhs` does not have,
-- or has with another value
unfoldable pub each_eq :
    {K V : Type 0} → Order K → (V → V → Result Bool) → Map K V → Map K V → Result Bool
unfolding find
each_eq o eq lhs [] = ok true
each_eq o eq lhs ((k, v) ∷ rhs) = elim (find o k lhs) [
  | none ↦ ok false
  | some w ↦ and_then (eq w v) (each_eq o eq lhs rhs)
]

-- the entries of m_defaults
abbrev pub default_eq : Rtti × String → Rtti × String → Bool
default_eq (t, k) (u, j) = rtti_same t u && str_eq k j

module _ {A C : Type 0} (cim strings : Order String) (py : Python A) (vals : Values A) where
  unfoldable pub manager_eq : ℕ → Store A C → Manager A C → Manager A C → Result Bool
  unfolding each_eq equal_at base_eq list_eq
  manager_eq n st lhs rhs =
      let go = λ (a b : ℕ). equal_at py vals n st a b in
      if length lhs.bases == length rhs.bases
        && length lhs.modules == length rhs.modules
        && length lhs.defaults == length rhs.defaults
        && length lhs.py_bases == length rhs.py_bases
      then and_then (each_eq strings (base_eq py vals go) lhs.py_bases rhs.py_bases) (
          and_then (each_eq rtti_order (λ _ _. ok true) lhs.bases rhs.bases) (
            and_then (each_eq cim go lhs.modules rhs.modules)
              (ok (list_eq default_eq lhs.defaults rhs.defaults))))
      else ok false
