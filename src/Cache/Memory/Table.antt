-- ===== src/Cache/Memory/Table.antt =====
-- What m_any2uuid_ holds, as a function from values to uuids.
use plugin_play.Base.{
  String, Bool, true, false, ◌≡◌, refl, Option, none, some, has, List, [], ◌∷◌, arith, Option-cases,
  Bool-cases, inl, inr, if◌then◌else◌,
}
use plugin_play.Base.Order.{same_refl, same_comm}
use plugin_play.Base.Map
use plugin_play.Base.Set
use plugin_play.Base.Set.{All}
use plugin_play.Base.Result.{Result, ok}
use plugin_play.Any.{AnyField}
use plugin_play.Cache.Database.{at_get}
use plugin_play.Cache.Native.{native}
use plugin_play.Cache.Transposer.{search, transposer}
use plugin_play.Cache.Memory.{Heap, Setting, uuid2any, any2uuid}

-- operator== of values, as the caches need it: `same` is an equivalence, and `eq` returns it on the
-- values that are `Fits`.
pub record IsEquality {A : Type 0} (eq : AnyField A → AnyField A → Result Bool)
    (alike : AnyField A → AnyField A → Bool) (Fits : AnyField A → Type 0) : Type 0 where
  pub total : (x y : AnyField A) → Fits x → Fits y → eq x y ≡ ok (alike x y)
  pub reflexive : (x : AnyField A) → alike x x ≡ true
  pub symmetric : (x y : AnyField A) → alike x y ≡ alike y x
  pub transitive : (x y z : AnyField A) → alike x y ≡ true → alike y z ≡ true → alike x z ≡ true

module _ {A : Type 0} (g : Setting A) (alike : AnyField A → AnyField A → Bool) where
  -- The first of the uuids whose value is alike.
  abbrev pub look : Heap A → AnyField A → List String → Option String
  look h x [] = none
  look h x (u ∷ us) = elim (Map.find g.strings u h.any_values) [
    | none ↦ none
    | some y ↦ if alike y x then some u else look h x us
  ]

  -- The uuid of a value.
  abbrev pub table : Heap A → AnyField A → Option String
  table h x = look h x h.any_keys

  -- The uuid has a value that can be compared.
  abbrev pub Known : (AnyField A → Type 0) → Heap A → String → Type 0
  Known Fits h u = (y : AnyField A) × (Map.find g.strings u h.any_values ≡ some y) × Fits y

  -- The heap after Transposer::insert_
  abbrev pub stored : AnyField A → String → Heap A → Heap A
  stored x u h = record h {
    any_keys = Set.insert g.strings u h.any_keys;
    any_values = Map.assign g.strings u x h.any_values;
  }

  module _ (Fits : AnyField A → Type 0) (e : IsEquality g.eq alike Fits) where
    uuid2any-at_get :
        (h : Heap A) (u : String) (y : AnyField A)
        → Map.find g.strings u h.any_values ≡ some y
        → at_get (uuid2any g) h u ≡ ok y
    unfolding native at_get
    uuid2any-at_get h u y f = ground arith

    search-look :
        (h : Heap A) (x : AnyField A) (us : List String)
        → Fits x
        → All (Known Fits h) us
        → search g.eq (uuid2any g) h x us ≡ ok (look h x us)
    unfolding search
    search-look h x [] fx all = refl
    search-look h x (u ∷ us) fx ((y, f, fy), all) =
        ground (arith, uuid2any-at_get h u y f, e.total y x fy fx, search-look h x us fx all)

    pub any2uuid-count :
        (h : Heap A) (x : AnyField A)
        → Fits x
        → All (Known Fits h) h.any_keys
        → (any2uuid g).count h x ≡ ok (has (table h x))
    unfolding transposer
    any2uuid-count h x fx all = ground (arith, search-look h x h.any_keys fx all)

    pub any2uuid-at_get :
        (h : Heap A) (x : AnyField A) (u : String)
        → Fits x
        → All (Known Fits h) h.any_keys
        → table h x ≡ some u
        → at_get (any2uuid g) h x ≡ ok u
    unfolding transposer at_get
    any2uuid-at_get h x u fx all t = ground (arith, search-look h x h.any_keys fx all)

    pub any2uuid-insert :
        (h : Heap A) (x : AnyField A) (u : String)
        → (any2uuid g).insert x u h ≡ (ok tt, stored x u h)
    unfolding transposer native
    any2uuid-insert h x u = refl

    look-frame :
        (h : Heap A) (x z : AnyField A) (u : String) (us : List String)
        → Set.member g.strings u us ≡ false
        → look (stored x u h) z us ≡ look h z us
    unfolding Set.member
    look-frame h x z u [] m = refl
    look-frame h x z u (j ∷ us) m = ground (
      arith,
      Map.find-assign g.strings u j x h.any_values,
      same_comm g.strings u j,
      look-frame h x z u us (ground arith),
    )

    look-place :
        (h : Heap A) (x z : AnyField A) (u : String) (us : List String)
        → All (Known Fits h) us
        → Set.member g.strings u us ≡ false
        → look h x us ≡ none
        → look (stored x u h) z (Set.place g.strings u us)
          ≡ (if alike x z then some u else look h z us)
    unfolding Set.member Set.place
    look-place h x z u [] all m n =
        ground (arith, Map.find-assign g.strings u u x h.any_values, same_refl g.strings u)
    look-place h x z u (j ∷ us) ((y, f, fy), all) m n = ground (
      arith,
      Map.find-assign g.strings u u x h.any_values,
      same_refl g.strings u,
      Map.find-assign g.strings u j x h.any_values,
      same_comm g.strings u j,
      look-frame h x z u us (ground arith),
      look-place h x z u us all (ground arith) (ground arith),
      e.symmetric x z,
      e.transitive y z x,
    )

    -- A value that is new gets the uuid; every other value keeps its own, or none.
    pub table-stored :
        (h : Heap A) (x z : AnyField A) (u : String)
        → All (Known Fits h) h.any_keys
        → Set.member g.strings u h.any_keys ≡ false
        → table h x ≡ none
        → table (stored x u h) z ≡ (if alike x z then some u else table h z)
    unfolding Set.insert
    table-stored h x z u all m n = ground (arith, look-place h x z u h.any_keys all m n)

    pub look-member :
        (h : Heap A) (x : AnyField A) (u : String) (us : List String)
        → look h x us ≡ some u
        → Set.member g.strings u us ≡ true
    unfolding Set.member
    look-member h x u [] t = cc
    look-member h x u (j ∷ us) t = ground (arith, same_refl g.strings u, look-member h x u us)

    look-alike :
        (h : Heap A) (x : AnyField A) (u : String) (us : List String)
        → look h x us ≡ some u
        → (y : AnyField A) × (Map.find g.strings u h.any_values ≡ some y) × (alike y x ≡ true)
    look-alike h x u [] t = absurd cc
    look-alike h x u (j ∷ us) t = elim (Option-cases (Map.find g.strings j h.any_values)) [
      | inl f ↦ absurd (ground arith)
      | inr (y, f) ↦ elim (Bool-cases (alike y x)) [
        | inl a ↦ (y, ground arith, a)
        | inr a ↦ look-alike h x u us (ground arith)
      ]
    ]

    -- Values with one uuid are alike.
    pub table_injective :
        (h : Heap A) (x z : AnyField A) (u : String)
        → table h x ≡ some u
        → table h z ≡ some u
        → alike x z ≡ true
    table_injective h x z u t r =
        let (y, f, a) = look-alike h x u h.any_keys t in
        let (y', f', a') = look-alike h z u h.any_keys r in
        ground (arith, e.symmetric x y, e.transitive x y z)

    look_congr :
        (h : Heap A) (x z : AnyField A) (us : List String)
        → alike x z ≡ true
        → look h x us ≡ look h z us
    look_congr h x z [] a = refl
    look_congr h x z (u ∷ us) a = elim (Option-cases (Map.find g.strings u h.any_values)) [
      | inl f ↦ ground arith
      | inr (y, f) ↦
          ground
            (arith, look_congr h x z us a, e.symmetric x z, e.transitive y x z, e.transitive y z x)
    ]

    -- Values that are alike have one uuid.
    pub table_congr : (h : Heap A) (x z : AnyField A) → alike x z ≡ true → table h x ≡ table h z
    table_congr h x z a = look_congr h x z h.any_keys a
