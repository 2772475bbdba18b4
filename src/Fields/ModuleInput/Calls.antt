-- ===== src/Fields/ModuleInput/Calls.antt =====
-- Sequences of calls on one ModuleInput.
use plugin_play.Base.{
  String, ◌≡◌, ◌⊎◌, refl, sym, subst, List, [], ◌∷◌, Bool-cases, inl, inr, has, none, some, ◌∙◌,
}
use plugin_play.Base.Order.{Order}
use plugin_play.Base.Result.{Result, ok, err, ◌>>=◌, Result-cases}
use plugin_play.Types.{Rtti}
use plugin_play.Any.{AnyField, Python, mutable_ref, any_cast}
use plugin_play.Base.Map.{AllValues}
use plugin_play.Fields.ModuleInput
use plugin_play.Fields.ModuleInput.{ModuleInput, AnyCheck}
use plugin_play.Fields.ModuleInput.Checks.{
  IsValid, Passes, set_value-IsValid, add_check-IsValid, set_type-IsValid,
}

-- The calls that can change an input; `write_ref` is a write through the reference that value<T&>()
-- gives.
pub data Call (A : Type 0) : Type 0 where
  set_type : Rtti → Call A
  set_value : AnyField A → Call A
  add_check : AnyCheck A → String → Call A
  set_description : String → Call A
  write_ref : Rtti → A → Call A
  make_optional make_required make_opaque make_transparent : Call A

-- A call that throws leaves the input as it was.
abbrev after : {A : Type 0} → ModuleInput A → Result (ModuleInput A) → ModuleInput A
after p (ok q) = q
after p (err e) = p

after-IsValid :
    {A : Type 0} (p : ModuleInput A) (r : Result (ModuleInput A))
    → IsValid p
    → ((q : ModuleInput A) → r ≡ ok q → IsValid q)
    → IsValid (after p r)
after-IsValid p (ok q) h k = k q refl
after-IsValid p (err e) h k = h

module _ {A : Type 0} (cim : Order String) (print : AnyField A → String) (py : Python A) where
  unfoldable pub step : ModuleInput A → Call A → ModuleInput A
  step p (set_type t) = after p (ModuleInput.set_type p t)
  step p (set_value v) = after p (ModuleInput.set_value cim print p v)
  step p (add_check c desc) = after p (ModuleInput.add_check cim print p c desc)
  step p (set_description desc) = ModuleInput.set_description p desc
  step p (write_ref t v) =
      after p (do
        r ← ModuleInput.value_mut py p (record { clean = t; mode = mutable_ref })
        ok (r.write v))
  step p make_optional = ModuleInput.make_optional p
  step p make_required = ModuleInput.make_required p
  step p make_opaque = ModuleInput.make_opaque p
  step p make_transparent = ModuleInput.make_transparent p

  unfoldable pub run : ModuleInput A → List (Call A) → ModuleInput A
  run p [] = p
  run p (c ∷ calls) = run (step p c) calls

  -- What a call writes through a reference passes the checks that the input holds then.
  abbrev pub WriteFits : ModuleInput A → Call A → Type 0
  WriteFits p (write_ref t v) = AllValues (Passes (step p (write_ref t v)).value) p.checks
  WriteFits p _ = Unit

  abbrev pub Fitting : ModuleInput A → List (Call A) → Type 0
  Fitting p [] = Unit
  Fitting p (c ∷ calls) = WriteFits p c × Fitting (step p c) calls

  -- A write that throws, or where there is nothing to write to, changes nothing.
  write_ref-cases :
      (p : ModuleInput A) (t : Rtti) (v : A)
      → (step p (write_ref t v) ≡ p) ⊎ (step p (write_ref t v) ≡ ModuleInput.overwrite py p v)
  unfolding step ModuleInput.value_mut
  write_ref-cases p t v = elim (Bool-cases p.is_cref) [
    | inl c ↦ inl (rw (c) refl)
    | inr c ↦ elim (Result-cases (ModuleInput.get p)) [
      | inr (x, e) ↦ inl (rw (c, e) refl)
      | inl (f, e) ↦
          elim (Result-cases (any_cast py f (record { clean = t; mode = mutable_ref }))) [
            | inr (x, g) ↦ inl (rw (c, e, g) refl)
            | inl (old, g) ↦ inr (rw (c, e, g) refl)
          ]
    ]
  ]

  has-replaced : (f : AnyField A) (v : A) → has (ModuleInput.replaced py f v) ≡ has f
  unfolding ModuleInput.replaced
  has-replaced none v = refl
  has-replaced (some f) v = refl

  overwrite-IsValid :
      (p : ModuleInput A) (v : A)
      → IsValid p
      → AllValues (Passes (ModuleInput.overwrite py p v).value) p.checks
      → IsValid (ModuleInput.overwrite py p v)
  overwrite-IsValid p v h k = record {
    typed = λ there. h.typed (sym (has-replaced p.value v) ∙ there);
    within = λ there. k;
  }

  step-IsValid : (p : ModuleInput A) (c : Call A) → IsValid p → WriteFits p c → IsValid (step p c)
  unfolding step ModuleInput.set_description ModuleInput.make_optional ModuleInput.make_required
      ModuleInput.make_opaque ModuleInput.make_transparent
  step-IsValid p (set_type t) h k =
      after-IsValid p _ h (λ q e. set_type-IsValid cim print p q t e h)
  step-IsValid p (set_value v) h k =
      after-IsValid p _ h (λ q e. set_value-IsValid cim print p q v e)
  step-IsValid p (add_check c desc) h k =
      after-IsValid p _ h (λ q e. add_check-IsValid cim print p q c desc e h)
  step-IsValid p (write_ref t v) h k = elim (write_ref-cases p t v) [
    | inl e ↦ subst IsValid (sym e) h
    | inr e ↦
        subst IsValid (sym e)
          (overwrite-IsValid p v h (subst (λ q. AllValues (Passes q.value) p.checks) e k))
  ]
  step-IsValid p _ h k = record { typed = h.typed; within = h.within }

  run-IsValid :
      (p : ModuleInput A) (calls : List (Call A))
      → IsValid p
      → Fitting p calls
      → IsValid (run p calls)
  unfolding run
  run-IsValid p [] h k = h
  run-IsValid p (c ∷ calls) h (k, ks) = run-IsValid (step p c) calls (step-IsValid p c h k) ks

  -- After any calls on a new input, whether they throw or not, a bound value has a type and passes
  -- every check that the input holds, if what is written through the modifiable references that
  -- value<T&>() gives passes the checks that the input holds at that time.
  pub run-empty-IsValid :
      (calls : List (Call A))
      → Fitting ModuleInput.empty calls
      → IsValid (run ModuleInput.empty calls)
  unfolding ModuleInput.empty
  run-empty-IsValid calls k = run-IsValid _ calls (record { typed = λ h. cc; within = λ h. cc }) k
