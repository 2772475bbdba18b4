-- ===== src/PropertyTypes/Wrap/Fields.antt =====
-- The fields of a property type that is derived from others.
use plugin_play.Base.{String, ◌≡◌, ◌↔◌, refl, ap, sym, subst, ◌∙◌, List, ◌++◌, arith}
use plugin_play.Base.Result.{ok, >>=-eq-ok}
use plugin_play.Any.{Python}
use plugin_play.Fields.ModuleInput.{ModuleInput}
use plugin_play.Fields.ModuleResult as Res
use plugin_play.Fields.ModuleResult.{ModuleResult}
use plugin_play.PropertyTypes.FieldTuple.{Element, FieldTuple, FieldType, result_element}
use plugin_play.PropertyTypes.FieldTuple.Union.{
  signature, IsDistinct, union-signature, union-ok, append-IsDistinct_right,
}
use plugin_play.PropertyTypes.Wrap.{PropertyType, root, derived, inputs, results}

module _ {A : Type 0} where
  -- The inputs that the classes declare, from the derived class to its last base.
  abbrev pub all_inputs : PropertyType A → List (String × FieldType)
  all_inputs (root t i r) = signature i
  all_inputs (derived t i r b) = signature i ++ all_inputs b

  abbrev pub all_results : PropertyType A → List (String × FieldType)
  all_results (root t i r) = signature r
  all_results (derived t i r b) = signature r ++ all_results b

  -- No class declares a key twice; add_field sees to that.
  abbrev pub AreDistinct : PropertyType A → Type 0
  AreDistinct (root t i r) = IsDistinct (signature i) × IsDistinct (signature r)
  AreDistinct (derived t i r b) =
      IsDistinct (signature i) × IsDistinct (signature r) × AreDistinct b

  -- Where the inputs of a property type can be put together, they are those of the derived class
  -- followed by those of its bases, and no key stands twice.
  pub inputs-signature :
      (el : Element A (ModuleInput A)) (pt : PropertyType A) (t : FieldTuple (ModuleInput A))
      → AreDistinct pt
      → inputs el pt ≡ ok t
      → (signature t ≡ all_inputs pt) × IsDistinct (signature t)
  unfolding inputs
  inputs-signature el (root u i r) t d h =
      (ground arith, subst (λ s. IsDistinct (signature s)) {x = i} (ground arith) d.0)
  inputs-signature el (derived u i r b) t d h =
      let (rest, runs, unites) = >>=-eq-ok (inputs el b) _ h in
      let (is, distinct) = inputs-signature el b rest d.2 runs in
      let (all, unique) = union-signature el i rest t unites in
      (all ∙ ap (λ s. signature i ++ s) is, unique d.0)

  module _ (py : Python A) where
    -- The results of a property type can be put together exactly if no two of its classes declare
    -- the same key; they are then those of the derived class followed by those of its bases.
    pub results_iff :
        (pt : PropertyType A)
        → AreDistinct pt
        → IsDistinct (all_results pt) ↔ (
            (t : FieldTuple (ModuleResult A)) × (results (result_element py) pt ≡ ok t)
            × (signature t ≡ all_results pt))
    unfolding results Res.set_type_as Res.empty
    results_iff (root u i r) d = (λ h. (r, refl, refl), λ h. d.1)
    results_iff (derived u i r b) d = (
      λ h.
          let (rest, runs, is) =
            (results_iff b d.2).0 (append-IsDistinct_right (signature r) (all_results b) h) in
          let (t, unites) =
            union-ok (result_element py) refl (λ u. refl) r rest
              (subst (λ s. IsDistinct (signature r ++ s)) (sym is) h) in
          (
            t,
            ground (arith, runs, unites),
            (union-signature (result_element py) r rest t unites).0 ∙ ap (λ s. signature r ++ s) is,
          ),
      λ (t, runs, is).
          let (rest, first, unites) = >>=-eq-ok (results (result_element py) b) _ runs in
          subst IsDistinct is ((union-signature (result_element py) r rest t unites).1 d.1),
    )
