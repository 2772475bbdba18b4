-- ===== src/Module/Memo/Merge.antt =====
-- Which value each input of a run has.
use plugin_play.Base.{
  ℕ, String, true, false, ◌≡◌, refl, inl, inr, ==-refl, Option, none, some, subst, [], ◌∷◌, arith,
  Bool-cases, All, if◌then◌else◌,
}
use plugin_play.Base.Order.{Order, same}
use plugin_play.Base.Map.{find, emplace, find-emplace, find_congr, count, keys}
use plugin_play.Base.Result.{Result, ok, err, Result-cases, >>=-eq-ok, ◌>>=◌}
use plugin_play.Types.{Rtti, rtti_same}
use plugin_play.Any.{AnyField, Python, copy}
use plugin_play.Fields.ModuleInput.{ModuleInput, passes, copy_input}
use plugin_play.Module.{Module, InputMap, Store}
use plugin_play.Module.Copy.Owned.{AreNative, owned_input, copy_input-owned}
use plugin_play.Module.Memo.{
  UuidMap, merge_bound, merge_inputs, submod_key, uuids_input, submod_uuids,
}

abbrev pub or_else : {V : Type 0} → Option V → Option V → Option V
or_else (some v) o = some v
or_else none o = o

abbrev pub owned_if : {A : Type 0} → Option (ModuleInput A) → Option (ModuleInput A)
owned_if none = none
owned_if (some i) = some (owned_input i)

then-then :
    {A B D : Type 0} (call : Result A) (f : A → B) (g : B → D)
    → call >>= (λ a. ok (f a)) >>= (λ b. ok (g b)) ≡ call >>= (λ a. ok (g (f a)))
then-then (ok a) f g = refl
then-then (err e) f g = refl

module _ {A : Type 0} (cim : Order String) (py : Python A) where
  -- A bound input whose key the call gives is not copied.
  pub merge_bound-given :
      (bound given : InputMap A)
      → All (λ k. count cim k given ≡ true) (keys bound)
      → merge_bound cim py bound given ≡ ok given
  unfolding merge_bound
  merge_bound-given [] given h = refl
  merge_bound-given ((k, v) ∷ bound) given (h, hs) = rw (h) (merge_bound-given bound given hs)

  emplace-there :
      (k : String) (e temp : ModuleInput A) (m : InputMap A)
      → find cim k m ≡ some e
      → find cim k (emplace cim submod_key temp m) ≡ some e
  emplace-there k e temp m h =
      ground (arith, find-emplace cim submod_key k temp m, find_congr cim submod_key k m)

  -- What the call gives stays.
  find-merge_bound-given :
      (k : String) (e : ModuleInput A) (bound given merged : InputMap A)
      → merge_bound cim py bound given ≡ ok merged
      → find cim k given ≡ some e
      → find cim k merged ≡ some e
  unfolding merge_bound
  find-merge_bound-given k e [] given merged h f = ground arith
  find-merge_bound-given k e ((j, v) ∷ bound) given merged h f =
      elim (Bool-cases (count cim j given)) [
        | inl c ↦ find-merge_bound-given k e bound given merged (ground arith) f
        | inr c ↦ elim (Result-cases (copy_input py v)) [
          | inr (x, g) ↦ absurd (ground arith)
          | inl (i, g) ↦
              find-merge_bound-given k e bound (emplace cim j i given) merged (ground arith)
                (ground (arith, find-emplace cim j k i given, find_congr cim j k given))
        ]
      ]

  find-merge_bound :
      (k : String) (bound given : InputMap A)
      → AreNative py bound
      → (merged : InputMap A) × (merge_bound cim py bound given ≡ ok merged)
        × (find cim k merged ≡ or_else (find cim k given) (owned_if (find cim k bound)))
  unfolding merge_bound find
  find-merge_bound k [] given h = (given, refl, ground arith)
  find-merge_bound k ((j, v) ∷ bound) given (h, hs) = elim (Bool-cases (count cim j given)) [
    | inl c ↦
        let (merged, merges, finds) = find-merge_bound k bound given hs in
        (merged, rw (c) merges, ground (arith, finds, find_congr cim j k given))
    | inr c ↦
        let (merged, merges, finds) =
          find-merge_bound k bound (emplace cim j (owned_input v) given) hs in
        (
          merged,
          rw (c, copy_input-owned py v h) merges,
          ground
              (arith, finds, find-emplace cim j k (owned_input v) given, find_congr cim j k given),
        )
  ]

  module _ (print : AnyField A → String) (demangle : Rtti → String) (uuids_type : Rtti)
      (wrap : UuidMap → A) (native : rtti_same uuids_type py.wrapper ≡ false) where
    pub uuids_input-ok :
        (uuids : UuidMap)
        → (temp : ModuleInput A) × (uuids_input cim py print demangle uuids_type wrap (ok uuids)
            ≡ ok temp)
    unfolding uuids_input passes rtti_same copy_input copy
    uuids_input-ok uuids =
        elim (Result-cases (uuids_input cim py print demangle uuids_type wrap (ok uuids))) [
          | inl made ↦ made
          | inr (e, refused) ↦ absurd (ground (arith, ==-refl uuids_type.index))
        ]

    -- The input that holds the uuids.
    abbrev pub uuids_of : UuidMap → ModuleInput A
    uuids_of uuids = (uuids_input-ok uuids).0

    uuids_input-reads :
        (reads : Result UuidMap)
        → uuids_input cim py print demangle uuids_type wrap reads
          ≡ reads >>= λ uuids. ok (uuids_of uuids)
    unfolding uuids_input
    uuids_input-reads (ok uuids) = (uuids_input-ok uuids).1
    uuids_input-reads (err e) = ground arith

    -- What the call gives stays, in inputs that could be merged.
    pub find-merge_inputs-given :
        {C : Type 0} (strings : Order String) (n : ℕ) (st : Store A C) (a : ℕ) (m : Module A)
        (given merged : InputMap A) (k : String) (e : ModuleInput A)
        → merge_inputs cim py print demangle uuids_type wrap strings n st a m given ≡ ok merged
        → find cim k given ≡ some e
        → find cim k merged ≡ some e
    unfolding merge_inputs
    find-merge_inputs-given strings n st a m given merged k e h f =
        let (bound, b, h1) = >>=-eq-ok (merge_bound cim py m.inputs given) _ h in
        let (temp, t, h2) = >>=-eq-ok (uuids_input cim py print demangle uuids_type wrap _) _ h1 in
        let there = find-merge_bound-given k e m.inputs given bound b f in
        let is : emplace cim submod_key temp bound ≡ merged = cc h2 in
        subst (λ ps. find cim k ps ≡ some e) is (emplace-there k e temp bound there)

    -- If no input that is bound to the module holds a Python object, nor is PythonWrapper the C++
    -- type of the uuids: the inputs of a run can be merged exactly if the uuids of the submodules
    -- can be read, and merging throws what reading them throws. Each key then has the value that
    -- the call gives, else a copy of the one bound to the module, which owns it; the key of the
    -- submodules' uuids has these unless one of the two has an input of that key.
    pub find-merge_inputs :
        {C : Type 0} (strings : Order String) (n : ℕ) (st : Store A C) (a : ℕ) (m : Module A)
        (given : InputMap A) (k : String)
        → AreNative py m.inputs
        → (merged : UuidMap → InputMap A) × (merge_inputs cim py print demangle uuids_type wrap
              strings n st a m given
            ≡ (submod_uuids strings n st a >>= λ uuids. ok (merged uuids)))
          × ((uuids : UuidMap)
              → uuids_input cim py print demangle uuids_type wrap (ok uuids) ≡ ok (uuids_of uuids))
          × ((uuids : UuidMap)
              → find cim k (merged uuids)
                ≡ or_else
                    (or_else (find cim k given) (owned_if (find cim k m.inputs)))
                    (if same cim submod_key k then some (uuids_of uuids) else none))
    unfolding merge_inputs
    find-merge_inputs strings n st a m given k h =
        let (bound, b, finds) = find-merge_bound k m.inputs given h in
        (
          λ uuids. emplace cim submod_key (uuids_of uuids) bound,
          rw (b, uuids_input-reads (submod_uuids strings n st a))
              (then-then (submod_uuids strings n st a) (λ uuids. uuids_of uuids)
                (λ temp. emplace cim submod_key temp bound)),
          λ uuids. (uuids_input-ok uuids).1,
          λ uuids. ground (
            arith,
            finds,
            find-emplace cim submod_key k (uuids_of uuids) bound,
            find_congr cim submod_key k bound,
          ),
        )
