-- ===== src/Tests/Modules.antt =====
-- The theorems on modules, at concrete modules.
use plugin_play.Base.{
  false, ℕ, zero, suc, ◌<◌, true, not, ◌&&◌, ◌≡◌, ◌↔◌, refl, subst, some, none, has, [], ◌∷◌, arith,
  if◌then◌else◌,
}
use plugin_play.Base.Map.{find, AllValues}
use plugin_play.Base.Set
use plugin_play.Base.TextOrder.{text_order}
use plugin_play.Base.Order.{same}
use plugin_play.Base.Result.{◌>>=◌, ok, has_ok, noexcept}
use plugin_play.Types.{Rtti, rtti_same}
use plugin_play.Fields.ModuleInput.{ModuleInput, is_ready}
use plugin_play.Module.{Module, InputMap}
use plugin_play.Module.Ready.{ready, not_set, NotSet, request_ready}
use plugin_play.Module.Ready.Laws.{member-not_set, unready, names}
use plugin_play.Module.Ready.Fuel.{IsLayered, ready-ok}
use plugin_play.Module.Lock.{lock}
use plugin_play.Module.Lock.Laws.{OnlyLocks, lock-OnlyLocks}
use plugin_play.Module.Lock.Succeeds.{ready-lock}
use plugin_play.Module.Lock.Reach.{LockedFrom, lock-LockedFrom}
use plugin_play.Any.{storing_python_object}
use plugin_play.Module.Memo.{UuidMap, merge_inputs, uuids_input, submod_key, submod_uuids}
use plugin_play.Module.Memo.Merge.{find-merge_inputs, or_else, owned_if, uuids_of}
use plugin_play.Module.Memo.{is_memoizable}
use plugin_play.Module.Memo.Deep.{MemoizableFrom, is_memoizable_iff}
use plugin_play.Tests.Data.{py, print, demangle, leaf, asker, store, three_modules}

lock-OnlyLocks_example : OnlyLocks store (lock text_order 2 1 store).1
lock-OnlyLocks_example = lock-OnlyLocks text_order 2 1 store

lock-LockedFrom_example : LockedFrom 2 (lock text_order 2 1 store).1 1
unfolding lock
lock-LockedFrom_example = lock-LockedFrom text_order 2 1 store refl

-- What `not_set` lists for `asker`, if the call names nothing.
abbrev asker_lacks : NotSet
asker_lacks = record { inputs = []; submodules = "area" ∷ [] }

member-not_set_example :
    (Set.member text_order "area" asker_lacks.inputs ≡ (
      unready text_order (λ i. ok (is_ready i)) asker.inputs "area"
      && not (names text_order {V = ModuleInput ℕ} [] "area")))
    × (Set.member text_order "area" asker_lacks.submodules
        ≡ unready text_order
            (λ r. noexcept (request_ready text_order (λ b i. ready text_order 1 store b i) r))
            asker.submods
            "area")
unfolding not_set Set.insert
member-not_set_example =
    member-not_set text_order (λ b i. ready text_order 1 store b i) asker [] asker_lacks "area" refl

pub inj : {X : Type 0} {x : X} (y : X) → some x ≡ some y → x ≡ y
inj y h = cc

-- The module has a base, and its requests lead to modules before it.
abbrev LeadsBack : ℕ → Module ℕ → Type 0
LeadsBack a m =
    (has m.base ≡ true)
    × AllValues (λ r. (b : ℕ) → r.module_ptr ≡ some b → (has (three_modules b) ≡ true) × (b < a))
        m.submods

pub caller-LeadsBack : (b : ℕ) → some 0 ≡ some b → (has (three_modules b) ≡ true) × (b < 1)
caller-LeadsBack b e =
    subst (λ b. (has (three_modules b) ≡ true) × (b < 1)) (inj b e) (refl, omega arith)

there-IsLayered : (a : ℕ) (m : Module ℕ) → three_modules a ≡ some m → LeadsBack a m
there-IsLayered zero m h = subst (LeadsBack 0) (inj m h) (refl, tt)
there-IsLayered (suc zero) m h = subst (LeadsBack 1) (inj m h) (refl, (caller-LeadsBack, tt))
there-IsLayered (suc (suc zero)) m h =
    subst (LeadsBack 2) (inj m h) (refl, ((λ b e. absurd (ground arith)), tt))
there-IsLayered (suc (suc (suc a))) m h = absurd (ground arith)

pub store-IsLayered : IsLayered store (λ a. a)
store-IsLayered = record {
  based = λ a m h. (there-IsLayered a m h).0;
  below = λ a m h. (there-IsLayered a m h).1;
}

ready-ok_example : has_ok (ready text_order 3 store 2 []) ≡ true
ready-ok_example = ready-ok text_order store (λ a. a) store-IsLayered 3 2 [] refl (omega arith)

abbrev map_type : Rtti
map_type = record { index = 5; name = "map" }

map_type_native : rtti_same map_type py.wrapper ≡ false
unfolding rtti_same
map_type_native = refl

find-merge_inputs_example :
    (merged : UuidMap → InputMap ℕ) × (merge_inputs text_order py print demangle map_type
        (λ u. 0)
        text_order
        1
        store
        0
        leaf
        []
      ≡ (submod_uuids text_order 1 store 0 >>= λ uuids. ok (merged uuids)))
    × ((uuids : UuidMap)
        → uuids_input text_order py print demangle map_type (λ u. 0) (ok uuids)
          ≡ ok (uuids_of text_order py print demangle map_type (λ u. 0) map_type_native uuids))
    × ((uuids : UuidMap)
        → find text_order "side" (merged uuids)
          ≡ or_else
              (or_else
                (find {V = ModuleInput ℕ} text_order "side" [])
                (owned_if (find text_order "side" leaf.inputs)))
              (if same text_order submod_key "side"
                then some
                    (uuids_of text_order py print demangle map_type (λ u. 0) map_type_native uuids)
                else none))
unfolding storing_python_object
find-merge_inputs_example =
    find-merge_inputs text_order py print demangle map_type (λ u. 0) map_type_native text_order 1
      store 0 leaf [] "side" (refl, tt)

ready-lock_example : (lock text_order 2 1 store).0 ≡ ok tt
unfolding ready
ready-lock_example = ready-lock text_order 2 1 [] store refl

is_memoizable_iff_example : (is_memoizable 2 store 1 ≡ ok true) ↔ MemoizableFrom 2 store 1
is_memoizable_iff_example = is_memoizable_iff 2 1 store
