-- ===== src/Module/Memo.antt =====
-- ModulePIMPL::is_memoizable, submod_uuids and merge_inputs_
-- (cxx/src/pluginplay/module/detail_/module_pimpl.ipp): what decides the key of a cached result.
pub mod Merge
pub mod Deep
use plugin_play.Base.{
  ℕ, zero, suc, String, concat, Bool, true, false, ◌&&◌, Option, none, some, List, [], ◌∷◌,
  if◌then◌else◌,
}
use plugin_play.Base.Order.{Order}
use plugin_play.Base.Map.{Map, emplace, count}
use plugin_play.Base.Result.{Result, ok, err, runtime_error, overflow, or_throw, ◌>>=◌}
use plugin_play.Types.{Rtti}
use plugin_play.Any.{AnyField, Python}
use plugin_play.Fields.ModuleInput.{ModuleInput, set_type_as, change, empty, copy_input}
use plugin_play.Module.{
  Module, SubmoduleRequest, SubmoduleMap, InputMap, Store, ModuleBase, assert_mod, deref,
}

abbrev pub UuidMap : Type 0
UuidMap = Map String String

-- The empty string is the uuid of a base that was given none.
abbrev pub uuid_or_empty : Option String → String
uuid_or_empty none = ""
uuid_or_empty (some u) = u

-- the inner loop of submod_uuids: the keys of a submodule's own submodules get its key in front
unfoldable pub scope_uuids : Order String → String → UuidMap → UuidMap → UuidMap
scope_uuids strings k [] rv = rv
scope_uuids strings k ((sub_k, sub_v) ∷ subs) rv =
    scope_uuids strings k subs (emplace strings (concat (concat k ":") sub_k) sub_v rv)

module _ {A : Type 0} where
  unfoldable pub memoizable_all : (ℕ → Result Bool) → SubmoduleMap A → Bool → Result Bool
  memoizable_all go [] memoizable = ok memoizable
  memoizable_all go ((k, r) ∷ submods) memoizable = do
    b ← or_throw r.module_ptr (runtime_error "Submodule is not ready")
    v ← go b
    memoizable_all go submods (v && memoizable)

module _ {A C : Type 0} where
  -- ModulePIMPL::is_memoizable
  unfoldable pub is_memoizable : ℕ → Store A C → ℕ → Result Bool
  unfolding memoizable_all
  is_memoizable zero st a = err overflow
  is_memoizable (suc n) st a = do
    m ← deref st a
    base ← assert_mod m
    elim base.uuid [
      | none ↦ ok false
      | some u ↦ memoizable_all (λ b. is_memoizable n st b) m.submods m.memoizable
    ]

  module _ (strings : Order String) where
    unfoldable pub uuids_all :
        Store A C → (ℕ → Result UuidMap) → SubmoduleMap A → UuidMap → Result UuidMap
    unfolding scope_uuids
    uuids_all st go [] rv = ok rv
    uuids_all st go ((k, r) ∷ submods) rv = do
      b ← or_throw r.module_ptr (runtime_error "Submodule is not set")
      subs ← go b
      m ← deref st b
      base ← assert_mod m
      uuids_all st go submods
          (emplace strings k (uuid_or_empty base.uuid) (scope_uuids strings k subs rv))

    -- ModulePIMPL::submod_uuids
    unfoldable pub submod_uuids : ℕ → Store A C → ℕ → Result UuidMap
    unfolding uuids_all
    submod_uuids zero st a = err overflow
    submod_uuids (suc n) st a = do
      m ← deref st a
      base ← assert_mod m
      uuids_all st (λ b. submod_uuids n st b) m.submods []

abbrev pub submod_key : String
submod_key = "__PLUGIN_PLAY__ SUBMOD KEYS __PLUGIN_PLAY__"

module _ {A : Type 0} (cim : Order String) (py : Python A) where
  -- the loop of merge_inputs_: a copy of a bound input is added unless the call gives one of its
  -- key
  unfoldable pub merge_bound : InputMap A → InputMap A → Result (InputMap A)
  unfolding copy_input
  merge_bound [] in_inputs = ok in_inputs
  merge_bound ((k, v) ∷ bound) in_inputs =
      let next =
        if count cim k in_inputs
        then ok in_inputs
        else (do i ← copy_input py v; ok (emplace cim k i in_inputs)) in
      next >>= λ more. merge_bound bound more

  -- The input that holds the uuids, as it is copied into the map: `uuids_type` is the C++ type of
  -- the map, `wrap` the map as the payload of an AnyField.
  module _ (print : AnyField A → String) (demangle : Rtti → String) (uuids_type : Rtti)
      (wrap : UuidMap → A) where
    unfoldable pub uuids_input : Result UuidMap → Result (ModuleInput A)
    unfolding set_type_as change empty copy_input
    uuids_input reads = do
      let (r, temp) = set_type_as cim print py demangle empty false uuids_type
      done ← r
      uuids ← reads
      changed ← change cim print py demangle temp false uuids_type (wrap uuids)
      copy_input py changed

    -- ModulePIMPL::merge_inputs_, of the module `m` at the address `a`
    unfoldable pub merge_inputs :
        {C : Type 0}
        → Order String
        → ℕ
        → Store A C
        → ℕ
        → Module A
        → InputMap A
        → Result (InputMap A)
    unfolding merge_bound uuids_input submod_uuids
    merge_inputs strings n st a m in_inputs = do
      merged ← merge_bound m.inputs in_inputs
      temp ← uuids_input (submod_uuids strings n st a)
      ok (emplace cim submod_key temp merged)
