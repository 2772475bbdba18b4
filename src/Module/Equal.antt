-- ===== src/Module/Equal.antt =====
-- operator== of SubmoduleRequestPIMPL (cxx/src/pluginplay/detail_/submodule_request_pimpl.ipp),
-- ModuleBase (cxx/include/pluginplay/module/module_base.hpp), ModulePIMPL
-- (cxx/src/pluginplay/module/detail_/module_pimpl.ipp) and Module
-- (cxx/src/pluginplay/module/module.cpp).
pub mod Copies
use plugin_play.Base.{ℕ, zero, suc, Bool, true, false, ◌&&◌, none, some, has, str_eq, if◌then◌else◌}
use plugin_play.Base.Equal.{bool_eq, option_eq, list_eq, map_eq}
use plugin_play.Base.Result.{Result, ok, err, overflow, noexcept, ◌>>=◌}
use plugin_play.Types.{rtti_same}
use plugin_play.Any.{Python, Values}
use plugin_play.Fields.Equal.{input_eq, result_eq}
use plugin_play.Module.{Module, ModuleBase, SubmoduleRequest, Store, deref}

-- what `&&` and an early `return false` do with a comparison that may throw
abbrev pub and_then : Result Bool → Result Bool → Result Bool
and_then lhs rhs = do one ← lhs; if one then rhs else ok false

module _ {A : Type 0} (py : Python A) (vals : Values A) where
  module _ (go : ℕ → ℕ → Result Bool) where
    -- SubmoduleRequestPIMPL::operator==; `go` compares the modules that two pointers point to. The
    -- inputs do not count.
    unfoldable pub request_eq : SubmoduleRequest A → SubmoduleRequest A → Result Bool
    unfolding option_eq rtti_same
    request_eq lhs rhs =
        let flags =
          bool_eq (has lhs.type) (has rhs.type)
          && bool_eq (has lhs.desc) (has rhs.desc)
          && bool_eq (has lhs.module_ptr) (has rhs.module_ptr) in
        if flags && option_eq rtti_same lhs.type rhs.type && option_eq str_eq lhs.desc rhs.desc
        then elim lhs.module_ptr [
          | none ↦ ok true
          | some a ↦ elim rhs.module_ptr [ none ↦ ok true | some b ↦ go a b ]
        ]
        else ok false

    -- ModuleBase::operator==. The algorithm and the uuid do not count, but the type does.
    unfoldable pub base_eq : ModuleBase A → ModuleBase A → Result Bool
    unfolding request_eq input_eq result_eq map_eq list_eq option_eq rtti_same
    base_eq lhs rhs = noexcept (
        if rtti_same lhs.type rhs.type
          && option_eq str_eq lhs.desc rhs.desc
          && list_eq str_eq lhs.citations rhs.citations
          && bool_eq lhs.is_python rhs.is_python
        then and_then (map_eq (input_eq py vals) lhs.inputs rhs.inputs) (
            and_then (map_eq (result_eq py vals) lhs.results rhs.results) (
              and_then (map_eq request_eq lhs.submods rhs.submods) (
                ok (
                  list_eq rtti_same lhs.property_types rhs.property_types
                  && list_eq str_eq lhs.python_property_types rhs.python_property_types))))
        else ok false)

    -- ModulePIMPL::operator==
    unfoldable pub pimpl_eq : Module A → Module A → Result Bool
    unfolding base_eq request_eq input_eq map_eq list_eq rtti_same
    pimpl_eq lhs rhs =
        if bool_eq (has lhs.base) (has rhs.base) && bool_eq lhs.locked rhs.locked
        then elim lhs.base [
          | none ↦ ok true
          | some l ↦ elim rhs.base [
            | none ↦ ok true
            | some r ↦ and_then (map_eq (input_eq py vals) lhs.inputs rhs.inputs) (
                and_then (map_eq request_eq lhs.submods rhs.submods) (
                  if list_eq rtti_same lhs.property_types rhs.property_types
                    && list_eq str_eq lhs.python_property_types rhs.python_property_types
                  then base_eq l r
                  else ok false))
          ]
        ]
        else ok false

    -- Module::operator==
    unfoldable pub module_eq : Module A → Module A → Result Bool
    unfolding pimpl_eq option_eq
    module_eq lhs rhs = and_then (pimpl_eq lhs rhs) (ok (option_eq str_eq lhs.name rhs.name))

  -- the modules at two addresses
  unfoldable pub equal_at : {C : Type 0} → ℕ → Store A C → ℕ → ℕ → Result Bool
  unfolding module_eq
  equal_at zero st a b = err overflow
  equal_at (suc n) st a b = do
    lhs ← deref st a
    rhs ← deref st b
    module_eq (λ c d. equal_at n st c d) lhs rhs
