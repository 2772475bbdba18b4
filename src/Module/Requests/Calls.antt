-- ===== src/Module/Requests/Calls.antt =====
-- Sequences of calls on one request, while others change the types of its module.
use plugin_play.Base.{
  ℕ, String, true, ◌≡◌, refl, Option, some, List, [], ◌∷◌, arith, Option-cases, Bool-cases, inl,
  inr, ◌==◌,
}
use plugin_play.Base.Set
use plugin_play.Base.Result.{Result, ok, err, ◌>>=◌, Result-cases}
use plugin_play.Types.{Rtti, rtti_order, rtti_equal_refl}
use plugin_play.Module.{Module, SubmoduleRequest, InputMap, Store, deref, write}
use plugin_play.Module.Setters
use plugin_play.Module.Setters.{suitable}
use plugin_play.Module.Setters.Suitable.{suitable-member, suitable-insert_more}
use plugin_play.Module.Requests
use plugin_play.Module.Requests.{satisfies_property_type, value}

-- The calls on a request, and the call by which others add a type to a module.
pub data Call (A : Type 0) : Type 0 where
  set_type : Rtti → InputMap A → Call A
  set_module : Option ℕ → Call A
  set_description : String → Call A
  add_property_type : ℕ → Rtti → Call A

-- A call that throws changes nothing.
abbrev or_keep : {B : Type 0} → B → Result B → B
or_keep b (ok c) = c
or_keep b (err e) = b

module _ {A C : Type 0} where
  -- The request has a type, and its module is alive and satisfies the type.
  abbrev pub IsSuited : Store A C → SubmoduleRequest A → Type 0
  IsSuited st r =
      (b : ℕ)
      → r.module_ptr ≡ some b
      → (m : Module A) × (t : Rtti) × (st.modules b ≡ some m)
        × (r.type ≡ some t)
        × (suitable t m.property_types ≡ true)

  module _ (demangle : Rtti → String) where
    unfoldable pub step : Store A C → SubmoduleRequest A → Call A → Store A C × SubmoduleRequest A
    step st r (set_type t inputs) = (st, or_keep r (Setters.set_type st r t inputs))
    step st r (set_module ptr) = (st, or_keep r (Setters.set_module demangle st r ptr))
    step st r (set_description desc) = (st, Requests.set_description r desc)
    step st r (add_property_type b t) =
        (or_keep st (do m ← deref st b; n ← Setters.add_property_type m t; ok (write st b n)), r)

    unfoldable pub run :
        Store A C → SubmoduleRequest A → List (Call A) → Store A C × SubmoduleRequest A
    unfolding step
    run st r [] = (st, r)
    run st r (c ∷ calls) = let (st1, r1) = step st r c in run st1 r1 calls

module _ {A C : Type 0} (demangle : Rtti → String) where
  set_type-IsSuited :
      (st : Store A C) (r q : SubmoduleRequest A) (t : Rtti) (inputs : InputMap A)
      → Setters.set_type st r t inputs ≡ ok q
      → IsSuited st q
  unfolding Setters.set_type
  set_type-IsSuited st r q t inputs e b there = elim (Option-cases r.module_ptr) [
    | inl f ↦ absurd (ground arith)
    | inr (c, f) ↦ elim (Option-cases (st.modules c)) [
      | inl g ↦ absurd (ground arith)
      | inr (m, g) ↦ elim (Option-cases m.base) [
        | inl i ↦ absurd (ground arith)
        | inr (base, i) ↦ elim (Bool-cases (Set.member rtti_order t m.property_types)) [
          | inr j ↦ absurd (ground arith)
          | inl j ↦ (m, t, ground arith, ground arith, suitable-member t m.property_types j)
        ]
      ]
    ]
  ]

  set_module-IsSuited :
      (st : Store A C) (r q : SubmoduleRequest A) (ptr : Option ℕ)
      → Setters.set_module demangle st r ptr ≡ ok q
      → IsSuited st q
  unfolding Setters.set_module
  set_module-IsSuited st r q ptr e b there = elim (Option-cases ptr) [
    | inl f ↦ absurd (ground arith)
    | inr (c, f) ↦ elim (Option-cases (st.modules c)) [
      | inl g ↦ absurd (ground arith)
      | inr (m, g) ↦ elim (Option-cases m.base) [
        | inl i ↦ absurd (ground arith)
        | inr (base, i) ↦ elim (Option-cases r.type) [
          | inl j ↦ absurd (ground arith)
          | inr (t, j) ↦ elim (Bool-cases (suitable t m.property_types)) [
            | inr k ↦ absurd (ground arith)
            | inl k ↦ (m, t, ground arith, ground arith, k)
          ]
        ]
      ]
    ]
  ]

  add_property_type-IsSuited :
      (st : Store A C) (r : SubmoduleRequest A) (m n : Module A) (b : ℕ) (t : Rtti)
      → st.modules b ≡ some m
      → Setters.add_property_type m t ≡ ok n
      → IsSuited st r
      → IsSuited (write st b n) r
  unfolding Setters.add_property_type write
  add_property_type-IsSuited st r m n b t e f h c there =
      let (o, u, alive, typed, fits) = h c there in
      elim (Bool-cases (b == c)) [
        | inl i ↦
            let is : o ≡ m = ground arith in
            let grown : n.property_types ≡ Set.insert rtti_order t m.property_types =
              ground arith in
            (
              n,
              u,
              ground arith,
              typed,
              rw (grown) (suitable-insert_more u t m.property_types (ground arith)),
            )
        | inr i ↦ (o, u, ground arith, typed, fits)
      ]

  step-IsSuited :
      (st : Store A C) (r : SubmoduleRequest A) (c : Call A)
      → IsSuited st r
      → IsSuited (step demangle st r c).0 (step demangle st r c).1
  unfolding step Requests.set_description
  step-IsSuited st r (set_type t inputs) h = elim (Result-cases (Setters.set_type st r t inputs)) [
    | inl (q, e) ↦ rw (e) (set_type-IsSuited st r q t inputs e)
    | inr (x, e) ↦ rw (e) h
  ]
  step-IsSuited st r (set_module ptr) h =
      elim (Result-cases (Setters.set_module demangle st r ptr)) [
        | inl (q, e) ↦ rw (e) (set_module-IsSuited st r q ptr e)
        | inr (x, e) ↦ rw (e) h
      ]
  step-IsSuited st r (set_description desc) h = h
  step-IsSuited st r (add_property_type b t) h = elim (Option-cases (st.modules b)) [
    | inl e ↦ rw (e) h
    | inr (m, e) ↦ elim (Result-cases (Setters.add_property_type m t)) [
      | inl (n, f) ↦ rw (e, f) (add_property_type-IsSuited st r m n b t e f h)
      | inr (x, f) ↦ rw (e, f) h
    ]
  ]

  run-IsSuited :
      (st : Store A C) (r : SubmoduleRequest A) (calls : List (Call A))
      → IsSuited st r
      → IsSuited (run demangle st r calls).0 (run demangle st r calls).1
  unfolding run
  run-IsSuited st r [] h = h
  run-IsSuited st r (c ∷ calls) h =
      let (st1, r1) = step demangle st r c in run-IsSuited st1 r1 calls (step-IsSuited st r c h)

  -- After any calls of set_type, set_module and set_description on a new request, and of
  -- add_property_type on any modules, whether they throw or not: if the request has a module, it
  -- has a type, the module is alive and satisfies that type, and satisfies_property_type says so.
  pub run-empty-suitable :
      (st : Store A C) (calls : List (Call A)) (b : ℕ)
      → (run demangle st Requests.empty calls).1.module_ptr ≡ some b
      → (m : Module A) × (t : Rtti) × (value
            (run demangle st Requests.empty calls).0
            (run demangle st Requests.empty calls).1
          ≡ ok m)
        × (suitable t m.property_types ≡ true)
        × (satisfies_property_type (run demangle st Requests.empty calls).1 t ≡ ok true)
  unfolding value satisfies_property_type
  run-empty-suitable st calls b there =
      let (m, t, alive, typed, fits) =
        run-IsSuited st Requests.empty calls (λ c e. absurd cc) b there in
      (m, t, rw (there, alive) refl, fits, rw (typed, rtti_equal_refl t) refl)
