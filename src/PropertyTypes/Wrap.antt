-- ===== src/PropertyTypes/Wrap.antt =====
-- PropertyType (cxx/include/pluginplay/property_type/property_type.hpp and property_type_impl.hpp).
pub mod RoundTrip
pub mod Fields
pub mod Typed
use plugin_play.Base.{String, none, some, List, [], ◌∷◌}
use plugin_play.Base.Order.{Order}
use plugin_play.Base.Map
use plugin_play.Base.Map.{Map}
use plugin_play.Base.Result.{Result, ok, err, out_of_range, ◌>>=◌}
use plugin_play.Base.Exec.{Exec, pure, reads, ◌>>=◌ as bind, ◌>>◌}
use plugin_play.Types.{Rtti}
use plugin_play.Any.{AnyField}
use plugin_play.Fields.ModuleInput.{ModuleInput}
use plugin_play.Fields.ModuleResult.{ModuleResult}
use plugin_play.PropertyTypes.FieldTuple.{Element, Entry, FieldTuple, union}

-- A class that derives from PropertyType<DerivedType, BaseType>: its type, what its inputs_() and
-- results_() return, and BaseType if that is a property type too.
pub data PropertyType (A : Type 0) : Type 0 where
  root : Rtti → FieldTuple (ModuleInput A) → FieldTuple (ModuleResult A) → PropertyType A
  derived :
      Rtti
      → FieldTuple (ModuleInput A)
      → FieldTuple (ModuleResult A)
      → PropertyType A
      → PropertyType A

-- An argument: a value that static_cast has converted to the type of its field, or an AnyField.
pub data Arg (A : Type 0) : Type 0 where
  plain : A → Arg A
  wrapped : AnyField A → Arg A

module _ {A : Type 0} where
  abbrev pub rtti_of : PropertyType A → Rtti
  rtti_of (root t i r) = t
  rtti_of (derived t i r b) = t

  -- bases_t, which make_base_tuple computes
  unfoldable pub bases : PropertyType A → List Rtti
  bases (root t i r) = []
  bases (derived t i r b) = rtti_of b ∷ bases b

  -- PropertyType::inputs
  unfoldable pub inputs :
      Element A (ModuleInput A) → PropertyType A → Result (FieldTuple (ModuleInput A))
  unfolding union
  inputs el (root t i r) = ok i
  inputs el (derived t i r b) = inputs el b >>= λ rest. union el i rest

  -- PropertyType::results
  unfoldable pub results :
      Element A (ModuleResult A) → PropertyType A → Result (FieldTuple (ModuleResult A))
  unfolding union
  results el (root t i r) = ok r
  results el (derived t i r b) = results el b >>= λ rest. union el r rest

module _ {A E : Type 0} (cim : Order String) (el : Element A E) where
  -- rv.at(key).change(value): a value of a type `const U&` is an lvalue.
  unfoldable pub change_field : Entry E → Arg A → E → Result E
  change_field f (plain v) e = el.change e f.type.is_cref f.type.clean v
  change_field f (wrapped v) e = el.change_any e v

  unfoldable pub change_at : Entry E → Arg A → Exec (Map String E) (Unit {0})
  unfolding change_field Map.find Map.assign
  change_at f v rv = elim (Map.find cim f.key rv) [
    | none ↦ (err (out_of_range "map::at"), rv)
    | some e ↦ elim (change_field f v e) [
      | err x ↦ (err x, rv)
      | ok changed ↦ (ok tt, Map.assign cim f.key changed rv)
    ]
  ]

  -- PropertyType::wrap_guts_ and wrap_; more arguments than fields do not compile.
  unfoldable pub wrap_guts : FieldTuple E → List (Arg A) → Exec (Map String E) (Unit {0})
  unfolding change_at
  wrap_guts builder [] = pure tt
  wrap_guts [] (v ∷ args) = pure tt
  wrap_guts (f ∷ builder) (v ∷ args) = change_at f v >> wrap_guts builder args

  -- PropertyType::unwrap_guts_ and unwrap_
  unfoldable pub unwrap_guts : FieldTuple E → Map String E → Result (List A)
  unfolding Map.find
  unwrap_guts [] rv = ok []
  unwrap_guts (f ∷ builder) rv = do
    e ← Map.at cim f.key rv (out_of_range "map::at")
    lhs ← el.value e f.type
    rhs ← unwrap_guts builder rv
    ok (lhs ∷ rhs)

module _ {A : Type 0} (cim : Order String) where
  module _ (el : Element A (ModuleInput A)) (pt : PropertyType A) where
    -- PropertyType::wrap_inputs
    unfoldable pub wrap_inputs : List (Arg A) → Exec (Map String (ModuleInput A)) (Unit {0})
    unfolding inputs wrap_guts
    wrap_inputs args = bind (reads (λ rv. inputs el pt)) (λ builder. wrap_guts cim el builder args)

    -- PropertyType::unwrap_inputs
    unfoldable pub unwrap_inputs : Map String (ModuleInput A) → Result (List A)
    unfolding inputs unwrap_guts
    unwrap_inputs rv = do builder ← inputs el pt; unwrap_guts cim el builder rv

  module _ (el : Element A (ModuleResult A)) (pt : PropertyType A) where
    -- PropertyType::wrap_results
    unfoldable pub wrap_results : List (Arg A) → Exec (Map String (ModuleResult A)) (Unit {0})
    unfolding results wrap_guts
    wrap_results args =
        bind (reads (λ rv. results el pt)) (λ builder. wrap_guts cim el builder args)

    -- PropertyType::unwrap_results
    unfoldable pub unwrap_results : Map String (ModuleResult A) → Result (List A)
    unfolding results unwrap_guts
    unwrap_results rv = do builder ← results el pt; unwrap_guts cim el builder rv
