-- ===== src/PropertyTypes/Wrap/RoundTrip.antt =====
-- Arguments that are wrapped into the fields of a map, and unwrapped again.
use plugin_play.Base.{String, false, ◌≡◌, refl, ◌∙◌, some, List, [], ◌∷◌, arith, All}
use plugin_play.Base.Order.{Order, same, same_refl, same_comm}
use plugin_play.Base.Map
use plugin_play.Base.Map.{Map}
use plugin_play.Base.Result.{ok}
use plugin_play.PropertyTypes.FieldTuple.{Element, Entry, FieldTuple, FieldType}
use plugin_play.PropertyTypes.Wrap.{Arg, plain, wrap_guts, unwrap_guts, change_at}

abbrev pub plain_all : {A : Type 0} → List A → List (Arg A)
plain_all [] = []
plain_all (v ∷ vs) = plain v ∷ plain_all vs

module _ {A E : Type 0} (cim : Order String) (el : Element A E) where
  -- The element takes the value, and gives it back.
  abbrev pub Takes : FieldType → E → A → Type 0
  Takes t e v =
      (changed : E) × (el.change e t.is_cref t.clean v ≡ ok changed) × (el.value changed t ≡ ok v)

  -- There is one value for each field, and the map has an element of its key that has the property.
  abbrev pub Meets : (FieldType → E → A → Type 0) → Map String E → FieldTuple E → List A → Type 0
  Meets P rv [] [] = Unit {0}
  Meets P rv (f ∷ builder) (v ∷ vs) =
      ((e : E) × (Map.find cim f.key rv ≡ some e) × P f.type e v) × Meets P rv builder vs
  Meets P rv _ _ = ⊥

  pub Meets-map :
      (P Q : FieldType → E → A → Type 0)
      → ((t : FieldType) (e : E) (v : A) → P t e v → Q t e v)
      → (rv : Map String E) (builder : FieldTuple E) (vs : List A) → Meets P rv builder vs
      → Meets Q rv builder vs
  Meets-map P Q f rv [] [] h = tt
  Meets-map P Q f rv [] (v ∷ vs) h = h
  Meets-map P Q f rv (g ∷ builder) [] h = h
  Meets-map P Q f rv (g ∷ builder) (v ∷ vs) ((e, there, p), h) =
      ((e, there, f g.type e v p), Meets-map P Q f rv builder vs h)

  -- No field of the tuple has this key in the map.
  abbrev pub Lacks : String → FieldTuple E → Type 0
  Lacks k builder = All (λ f. same cim f.key k ≡ false) builder

  -- No two fields have the same key in the map.
  abbrev pub IsApart : FieldTuple E → Type 0
  IsApart [] = Unit
  IsApart (f ∷ builder) = Lacks f.key builder × IsApart builder

  assign-Meets :
      (k : String) (e : E) (rv : Map String E) (builder : FieldTuple E) (vs : List A)
      → Lacks k builder
      → Meets Takes rv builder vs
      → Meets Takes (Map.assign cim k e rv) builder vs
  assign-Meets k e rv [] [] apart h = tt
  assign-Meets k e rv [] (v ∷ vs) apart h = h
  assign-Meets k e rv (f ∷ builder) [] apart h = h
  assign-Meets k e rv (f ∷ builder) (v ∷ vs) (new, apart) ((d, there, takes), h) = (
    (d, ground (arith, Map.find-assign cim k f.key e rv, same_comm cim k f.key), takes),
    assign-Meets k e rv builder vs apart h,
  )

  change_at-assign :
      (f : Entry E) (v : A) (rv : Map String E) (e changed : E)
      → Map.find cim f.key rv ≡ some e
      → el.change e f.type.is_cref f.type.clean v ≡ ok changed
      → change_at cim el f (plain v) rv ≡ (ok tt, Map.assign cim f.key changed rv)
  unfolding change_at
  change_at-assign f v rv e changed there changes = ground arith

  -- The map after wrap: every value is there, and the other keys have what they had.
  pub record Wrapped (rv : Map String E) (builder : FieldTuple E) (vs : List A) : Type 0 where
    pub after : Map String E
    pub wraps : wrap_guts cim el builder (plain_all vs) rv ≡ (ok tt, after)
    pub unwraps : unwrap_guts cim el builder after ≡ ok vs
    pub others : (k : String) → Lacks k builder → Map.find cim k after ≡ Map.find cim k rv

  pub wrap_guts-Wrapped :
      (builder : FieldTuple E) (vs : List A) (rv : Map String E)
      → IsApart builder
      → Meets Takes rv builder vs
      → Wrapped rv builder vs
  unfolding wrap_guts unwrap_guts
  wrap_guts-Wrapped [] [] rv apart h = record {
    after = rv;
    wraps = refl;
    unwraps = refl;
    others = λ k lacks. refl;
  }
  wrap_guts-Wrapped [] (v ∷ vs) rv apart h = absurd h
  wrap_guts-Wrapped (f ∷ builder) [] rv apart h = absurd h
  wrap_guts-Wrapped (f ∷ builder) (v ∷ vs) rv (lacks, apart)
        ((e, there, (changed, changes, value)), h) =
      let rv1 = Map.assign cim f.key changed rv in
      let rest =
        wrap_guts-Wrapped builder vs rv1 apart (assign-Meets f.key changed rv builder vs lacks h) in
      let first = change_at-assign f v rv e changed there changes in
      let here : Map.find cim f.key rest.after ≡ some changed =
        rest.others f.key lacks
        ∙ ground (arith, Map.find-assign cim f.key f.key changed rv, same_refl cim f.key) in
      record {
        after = rest.after;
        wraps = ground (arith, first, rest.wraps);
        unwraps = ground (arith, here, value, rest.unwraps);
        others = λ k (out, lacks_k).
            rest.others k lacks_k ∙ ground (arith, Map.find-assign cim f.key k changed rv);
      }
