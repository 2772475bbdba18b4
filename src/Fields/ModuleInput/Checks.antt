-- ===== src/Fields/ModuleInput/Checks.antt =====
-- The value of a ModuleInput against its bounds checks.
use plugin_play.Base.{String, true, ◌≡◌, refl, sym, ◌↔◌, some, has, [], ◌∷◌, arith, ap}
use plugin_play.Base.Order.{Order}
use plugin_play.Base.Map.{Map, AllValues, emplace, emplace-AllValues}
use plugin_play.Base.Result.{ok}
use plugin_play.Types.{Rtti}
use plugin_play.Any.{AnyField}
use plugin_play.Fields.ModuleInput.{
  ModuleInput, AnyCheck, passes, set_type, set_value, add_check, has_type,
}

module _ {A : Type 0} where
  -- The value passes the check.
  abbrev pub Passes : AnyField A → AnyCheck A → Type 0
  Passes v check = check v ≡ ok true

  -- A bound value has a type and passes every check.
  pub record IsValid (p : ModuleInput A) : Type 0 where
    pub typed : has p.value ≡ true → has_type p ≡ true
    pub within : has p.value ≡ true → AllValues (Passes p.value) p.checks

  pub passes-AllValues :
      (checks : Map String (AnyCheck A)) (v : AnyField A)
      → passes checks v ≡ ok true
      → AllValues (Passes v) checks
  unfolding passes
  passes-AllValues [] v h = tt
  passes-AllValues ((k, check) ∷ rest) v h = (ground arith, passes-AllValues rest v (ground arith))

  pub AllValues-passes :
      (checks : Map String (AnyCheck A)) (v : AnyField A)
      → AllValues (Passes v) checks
      → passes checks v ≡ ok true
  unfolding passes
  AllValues-passes [] v h = refl
  AllValues-passes ((k, check) ∷ rest) v h = rw h.0 (AllValues-passes rest v h.1)

  module _ (cim : Order String) (print : AnyField A → String) where
    set_value-eq_ok :
        (p q : ModuleInput A) (v : AnyField A)
        → set_value cim print p v ≡ ok q
        → (has_type p ≡ true) × (passes p.checks v ≡ ok true) × (q ≡ record p { value = v })
    unfolding set_value
    set_value-eq_ok p q v h = (ground arith, ground arith, ground arith)

    -- `set_value` succeeds exactly if a type is set and the value passes every check; it then
    -- changes the value alone.
    pub set_value_iff :
        (p q : ModuleInput A) (v : AnyField A)
        → (set_value cim print p v ≡ ok q)
          ↔ ((has_type p ≡ true) × AllValues (Passes v) p.checks × (q ≡ record p { value = v }))
    unfolding set_value
    set_value_iff p q v = (
      λ h. let (t, c, e) = set_value-eq_ok p q v h in (t, passes-AllValues p.checks v c, e),
      λ h. rw (h.0, AllValues-passes p.checks v h.1, set_value) (ap ok (sym h.2)),
    )

    pub set_value-IsValid :
        (p q : ModuleInput A) (v : AnyField A) → set_value cim print p v ≡ ok q → IsValid q
    set_value-IsValid p q v h =
        let (t, c, e) = (set_value_iff p q v).0 h in
        rw e (record { typed = λ _. t; within = λ _. c })

    add_check-eq_ok :
        (p q : ModuleInput A) (check : AnyCheck A) (desc : String)
        → add_check cim print p check desc ≡ ok q
        → (q ≡ record p { checks = emplace cim desc check p.checks })
          × (has p.value ≡ true → Passes p.value check)
    unfolding add_check
    add_check-eq_ok p q check desc h = (ground arith, ground arith)

    pub add_check-IsValid :
        (p q : ModuleInput A) (check : AnyCheck A) (desc : String)
        → add_check cim print p check desc ≡ ok q
        → IsValid p
        → IsValid q
    add_check-IsValid p q check desc h i =
        let (e, fits) = add_check-eq_ok p q check desc h in
        rw e (record {
          typed = i.typed;
          within = λ set.
              emplace-AllValues cim (Passes p.value) desc check p.checks (fits set) (i.within set);
        })

    pub set_type-IsValid :
        (p q : ModuleInput A) (t : Rtti) → set_type p t ≡ ok q → IsValid p → IsValid q
    unfolding set_type
    set_type-IsValid p q t h i =
        let e : q ≡ record p { type = some t } = ground arith in
        rw e (record { typed = λ _. refl; within = i.within })
