-- ===== src/Fields/ModuleInput/Bounds/Within.antt =====
-- Values against the bounds that were added to an input.
use plugin_play.Base.{String, Bool, true, false, ◌&&◌, ◌≡◌, refl, none, List, [], ◌∷◌, arith}
use plugin_play.Base.Order.{Order, same}
use plugin_play.Base.Map.{Map, find, place, emplace, find-emplace}
use plugin_play.Base.Result.{Result, ok, err, has_ok, ◌>>=◌}
use plugin_play.Types.{Rtti, rtti_same}
use plugin_play.Any.{AnyField, Python}
use plugin_play.Fields.ModuleInput
use plugin_play.Fields.ModuleInput.{ModuleInput, AnyCheck, passes, change, wrap_value}
use plugin_play.Fields.ModuleInput.Bounds.{
  Comparable, Bound, holds, any_check, described, add_bound, add_bounds,
}

-- Does the check return true?
abbrev passed : Result Bool → Bool
passed (ok b) = b
passed (err e) = false

module _ {A : Type 0} (t : Comparable A) where
  unfoldable pub all_hold : List (Bound A × String) → A → Bool
  all_hold [] x = true
  all_hold ((b, desc) ∷ bounds) x = holds t b x && all_hold bounds x

module _ {A : Type 0} (cim : Order String) where
  passes-place :
      (k : String) (c : AnyCheck A) (m : Map String (AnyCheck A)) (v : AnyField A)
      → passed (passes (place cim k c m) v) ≡ passed (c v) && passed (passes m v)
  unfolding passes place
  passes-place k c [] v = ground arith
  passes-place k c ((j, d) ∷ m) v = ground (arith, passes-place k c m v)

  passes-emplace :
      (k : String) (c : AnyCheck A) (m : Map String (AnyCheck A)) (v : AnyField A)
      → find cim k m ≡ none
      → passed (passes (emplace cim k c m) v) ≡ passed (c v) && passed (passes m v)
  unfolding emplace
  passes-emplace k c m v h = ground (arith, passes-place k c m v)

module _ {A : Type 0} (cim : Order String) (t : Comparable A) where
  -- No bound is described as `k`.
  abbrev pub Apart : String → List (Bound A × String) → Type 0
  Apart k [] = Unit
  Apart k ((b, desc) ∷ bounds) = (same cim k (described t b desc) ≡ false) × Apart k bounds

  -- No two bounds have the same description.
  abbrev pub AreApart : List (Bound A × String) → Type 0
  AreApart [] = Unit
  AreApart ((b, desc) ∷ bounds) = Apart (described t b desc) bounds × AreApart bounds

  -- No bound has the description of a check that is there.
  abbrev pub AreNew : Map String (AnyCheck A) → List (Bound A × String) → Type 0
  AreNew m [] = Unit
  AreNew m ((b, desc) ∷ bounds) = (find cim (described t b desc) m ≡ none) × AreNew m bounds

  AreNew-emplace :
      (k : String) (c : AnyCheck A) (m : Map String (AnyCheck A)) (bounds : List (Bound A × String))
      → find cim k m ≡ none
      → Apart k bounds
      → AreNew m bounds
      → AreNew (emplace cim k c m) bounds
  AreNew-emplace k c m [] h apart new = tt
  AreNew-emplace k c m ((b, desc) ∷ bounds) h apart new = (
    ground (arith, find-emplace cim k (described t b desc) c m, apart.0, new.0),
    AreNew-emplace k c m bounds h apart.1 new.1,
  )

  module _ (print : AnyField A → String) (py : Python A) (demangle : Rtti → String) (type : Rtti)
      (is_lvalue : Bool) (native : rtti_same type py.wrapper ≡ false) where
    -- A check of a bound reads a value of the bound's type.
    passed-any_check :
        (i : ModuleInput A) (b : Bound A) (x : A)
        → any_check py t type b (wrap_value cim print py demangle i is_lvalue type x)
          ≡ ok (holds t b x)
    unfolding any_check wrap_value
    passed-any_check i b x = ground arith

    change-passed :
        (i : ModuleInput A) (x : A)
        → has_ok (change cim print py demangle i is_lvalue type x)
          ≡ ModuleInput.has_type i
            && passed (passes i.checks (wrap_value cim print py demangle i is_lvalue type x))
    unfolding change
    change-passed i x = ground arith

    -- the input with the check of one bound more
    with_bound : ModuleInput A → Bound A → String → ModuleInput A
    with_bound i b desc = record i {
      checks = emplace cim (described t b desc) (any_check py t type b) i.checks;
    }

    add_bound-ok :
        (i : ModuleInput A) (b : Bound A) (desc : String)
        → i.value ≡ none
        → add_bound cim print py t type i b desc ≡ ok (with_bound i b desc)
    unfolding add_bound with_bound
    add_bound-ok i b desc h = ground arith

    change-with_bound :
        (i : ModuleInput A) (b : Bound A) (desc : String) (x : A)
        → find cim (described t b desc) i.checks ≡ none
        → has_ok (change cim print py demangle (with_bound i b desc) is_lvalue type x)
          ≡ has_ok (change cim print py demangle i is_lvalue type x) && holds t b x
    unfolding with_bound wrap_value
    change-with_bound i b desc x new =
        let k = described t b desc in
        let c = any_check py t type b in
        let v = wrap_value cim print py demangle i is_lvalue type x in
        ground (
          arith,
          change-passed (with_bound i b desc) x,
          change-passed i x,
          passes-emplace cim k c i.checks v new,
          passed-any_check i b x,
        )

    -- With bounds of pairwise different descriptions, none of them the description of a check
    -- that is there, added to an input that holds no value, every `add_check` succeeds, and the
    -- input takes exactly the values of the bounds' type that it took before and for which every
    -- bound holds. The type is not PythonWrapper.
    pub change-add_bounds :
        (i : ModuleInput A) (bounds : List (Bound A × String)) (x : A)
        → i.value ≡ none
        → AreApart bounds
        → AreNew i.checks bounds
        → has_ok (add_bounds cim print py t type i bounds) ≡ true
          × has_ok (
              add_bounds cim print py t type i bounds >>= λ j.
              change cim print py demangle j is_lvalue type x)
            ≡ has_ok (change cim print py demangle i is_lvalue type x) && all_hold t bounds x
    unfolding add_bounds all_hold with_bound
    change-add_bounds i [] x h apart new = (refl, ground arith)
    change-add_bounds i ((b, desc) ∷ bounds) x h apart new =
        let j = with_bound i b desc in
        let new_j =
          AreNew-emplace (described t b desc) (any_check py t type b) i.checks bounds new.0 apart.0
            new.1 in
        let (added, taken) = change-add_bounds j bounds x h apart.1 new_j in
        rw (add_bound-ok i b desc h, taken)
          (added, ground (arith, change-with_bound i b desc x new.0))
