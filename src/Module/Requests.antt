-- ===== src/Module/Requests.antt =====
-- What else is asked of a SubmoduleRequest (cxx/src/pluginplay/detail_/submodule_request_pimpl.ipp
-- and .hpp).
pub mod Calls
use plugin_play.Base.{String, Bool, false, has, none, some, []}
use plugin_play.Base.Result.{Result, ok, runtime_error, bad_optional_access, or_throw, ◌>>=◌}
use plugin_play.Types.{Rtti, rtti_equal}
use plugin_play.Module.{Module, SubmoduleRequest, Store, deref}

module _ {A : Type 0} where
  -- the default constructor
  abbrev pub empty : SubmoduleRequest A
  empty = record { desc = none; type = none; inputs = []; module_ptr = none }

  unfoldable pub set_description : SubmoduleRequest A → String → SubmoduleRequest A
  set_description r desc = record r { desc = some desc }

  unfoldable pub type_of : SubmoduleRequest A → Result Rtti
  type_of r = or_throw r.type bad_optional_access

  unfoldable pub satisfies_property_type : SubmoduleRequest A → Rtti → Result Bool
  unfolding rtti_equal
  satisfies_property_type r t = do
    u ← or_throw r.type (runtime_error "Property Type Not Set")
    ok (rtti_equal t u)

  module _ {C : Type 0} (st : Store A C) (r : SubmoduleRequest A) where
    unfoldable pub value : Result (Module A)
    value = or_throw r.module_ptr (runtime_error "Submodule is not ready") >>= λ b. deref st b

    unfoldable pub has_name : Result Bool
    has_name = elim r.module_ptr [ none ↦ ok false | some b ↦ do m ← deref st b; ok (has m.name) ]

    unfoldable pub get_name : Result String
    get_name = do
      b ← or_throw r.module_ptr (runtime_error "Submodule is not set")
      m ← deref st b
      or_throw m.name bad_optional_access
