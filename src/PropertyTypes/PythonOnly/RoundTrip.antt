-- ===== src/PropertyTypes/PythonOnly/RoundTrip.antt =====
-- Python objects that are wrapped by position, and unwrapped again.
use plugin_play.Base.{
  String, false, ◌≡◌, refl, Option-cases, inl, inr, List, [], ◌∷◌, length, arith, ==-refl,
}
use plugin_play.Base.Order.{Order}
use plugin_play.Base.Map
use plugin_play.Base.Map.{Map}
use plugin_play.Base.Result.{ok, Result-cases}
use plugin_play.Types.{Rtti}
use plugin_play.PropertyTypes.FieldTuple.{Element, FieldTuple, FieldType}
use plugin_play.PropertyTypes.Wrap.{wrap_guts, unwrap_guts, change_at}
use plugin_play.PropertyTypes.Wrap.RoundTrip.{
  plain_all, Takes, Meets, Lacks, IsApart, wrap_guts-Wrapped,
}
use plugin_play.PropertyTypes.PythonOnly.{Fields, object_type, wrap_all, wrap, unwrap_all}

module _ {A E : Type 0} (cim : Order String) (el : Element A E) (wrapper : Rtti) where
  -- The field tuple that has these keys, of which each holds a Python object.
  abbrev pub objects : List String → FieldTuple E
  objects [] = []
  objects (key ∷ order) =
      record { key = key; type = object_type wrapper; field = el.empty } ∷ objects order

  wrap_guts-wrap_all :
      (order : List String) (args : List A) (rv after : Map String E)
      → wrap_guts cim el (objects order) (plain_all args) rv ≡ (ok tt, after)
      → wrap_all cim el wrapper order args rv ≡ ok after
  unfolding wrap_guts wrap_all change_at
  wrap_guts-wrap_all [] [] rv after h = ground arith
  wrap_guts-wrap_all [] (v ∷ vs) rv after h = ground arith
  wrap_guts-wrap_all (key ∷ order) [] rv after h = ground arith
  wrap_guts-wrap_all (key ∷ order) (v ∷ vs) rv after h = elim (Option-cases (Map.find cim key rv)) [
    | inl none_there ↦ absurd (ground arith)
    | inr (e, there) ↦ elim (Result-cases (el.change e false wrapper v)) [
      | inl (changed, changes) ↦
          let rv1 = Map.assign cim key changed rv in
          ground (arith, wrap_guts-wrap_all order vs rv1 after)
      | inr (x, fails) ↦ absurd (ground arith)
    ]
  ]

  unwrap_guts-unwrap_all :
      (order : List String) (rv : Map String E)
      → unwrap_guts cim el (objects order) rv ≡ unwrap_all cim el wrapper order rv
  unfolding unwrap_guts unwrap_all
  unwrap_guts-unwrap_all [] rv = refl
  unwrap_guts-unwrap_all (key ∷ order) rv = grind (arith, unwrap_guts-unwrap_all order rv)

  Meets-length :
      (P : FieldType → E → A → Type 0) (order : List String) (args : List A) (rv : Map String E)
      → Meets cim el P rv (objects order) args
      → length args ≡ length order
  Meets-length P [] [] rv h = refl
  Meets-length P [] (v ∷ vs) rv h = absurd h
  Meets-length P (key ∷ order) [] rv h = absurd h
  Meets-length P (key ∷ order) (v ∷ vs) rv (there, h) = ground (arith, Meets-length P order vs rv h)

  -- For keys that are different in a map, and as many arguments that the elements of these keys
  -- take and give back: wrapping them succeeds, unwrapping the same keys gives the arguments back
  -- in their order, and every other key keeps its element.
  pub unwrap_all-wrap :
      (name what : String) (fs : Fields E) (args : List A) (rv : Map String E)
      → IsApart cim el (objects fs.order)
      → Meets cim el (Takes cim el) rv (objects fs.order) args
      → (after : Map String E) × (wrap cim el wrapper name what fs args rv ≡ ok after)
        × (unwrap_all cim el wrapper fs.order after ≡ ok args)
        × ((k : String)
            → Lacks cim el k (objects fs.order)
            → Map.find cim k after ≡ Map.find cim k rv)
  unfolding wrap
  unwrap_all-wrap name what fs args rv apart meets =
      let w = wrap_guts-Wrapped cim el (objects fs.order) args rv apart meets in
      (
        w.after,
        ground (
          arith,
          Meets-length (Takes cim el) fs.order args rv meets,
          ==-refl (length fs.order),
          wrap_guts-wrap_all fs.order args rv w.after w.wraps,
        ),
        ground (arith, unwrap_guts-unwrap_all fs.order w.after, w.unwraps),
        w.others,
      )
