-- ===== src/Module/Memo/Deep.antt =====
-- When a module is memoizable.
use plugin_play.Base.{
  ℕ, zero, suc, Bool, true, ◌&&◌, ◌≡◌, ◌↔◌, refl, some, has, [], ◌∷◌, arith, Option-cases, inl, inr,
}
use plugin_play.Base.Result.{Result, ok, Result-cases}
use plugin_play.Module.{Module, ModuleBase, SubmoduleMap, Store}
use plugin_play.Module.Lock.Reach.{Pointees, Pointees-map}
use plugin_play.Module.Memo.{memoizable_all, is_memoizable}

module _ {A C : Type 0} where
  -- The module and all that its submodules lead to, at any depth, have a uuid and have their
  -- memoization turned on.
  pub MemoizableFrom : ℕ → Store A C → ℕ → Type 0
  MemoizableFrom zero st a = ⊥
  MemoizableFrom (suc n) st a =
      (m : Module A) × (base : ModuleBase A) × (st.modules a ≡ some m)
      × (m.base ≡ some base)
      × (has base.uuid ≡ true)
      × (m.memoizable ≡ true)
      × Pointees (λ b. MemoizableFrom n st b) m.submods

memoizable_all-true :
    {A : Type 0} (go : ℕ → Result Bool) (submods : SubmoduleMap A) (acc : Bool)
    → memoizable_all go submods acc ≡ ok true
    → (acc ≡ true) × Pointees (λ b. go b ≡ ok true) submods
unfolding memoizable_all
memoizable_all-true go [] acc h = (ground arith, tt)
memoizable_all-true go ((k, r) ∷ submods) acc h = elim (Option-cases r.module_ptr) [
  | inl e ↦ absurd (ground arith)
  | inr (b, e) ↦ elim (Result-cases (go b)) [
    | inr (x, f) ↦ absurd (ground arith)
    | inl (v, f) ↦
        let (both, rest) = memoizable_all-true go submods (v && acc) (ground arith) in
        (ground arith, ((b, e, ground arith), rest))
  ]
]

Pointees-memoizable_all :
    {A : Type 0} (go : ℕ → Result Bool) (submods : SubmoduleMap A)
    → Pointees (λ b. go b ≡ ok true) submods
    → memoizable_all go submods true ≡ ok true
unfolding memoizable_all
Pointees-memoizable_all go [] h = refl
Pointees-memoizable_all go ((k, r) ∷ submods) ((b, e, f), h) =
    ground (arith, Pointees-memoizable_all go submods h)

module _ {A C : Type 0} where
  is_memoizable-deep :
      (n a : ℕ) (st : Store A C) → is_memoizable n st a ≡ ok true → MemoizableFrom n st a
  unfolding is_memoizable MemoizableFrom
  is_memoizable-deep zero a st h = absurd (ground arith)
  is_memoizable-deep (suc n) a st h = elim (Option-cases (st.modules a)) [
    | inl e ↦ absurd (ground arith)
    | inr (m, e) ↦ elim (Option-cases m.base) [
      | inl f ↦ absurd (ground arith)
      | inr (base, f) ↦ elim (Option-cases base.uuid) [
        | inl g ↦ absurd (ground arith)
        | inr (u, g) ↦
            let (on, all) =
              memoizable_all-true (λ b. is_memoizable n st b) m.submods m.memoizable
                (ground arith) in
            (
              m,
              base,
              e,
              f,
              ground arith,
              on,
              Pointees-map _ _ (λ b. is_memoizable-deep n b st) m.submods all,
            )
      ]
    ]
  ]

  deep-is_memoizable :
      (n a : ℕ) (st : Store A C) → MemoizableFrom n st a → is_memoizable n st a ≡ ok true
  unfolding is_memoizable MemoizableFrom
  deep-is_memoizable zero a st h = absurd h
  deep-is_memoizable (suc n) a st (m, base, e, f, u, on, subs) =
      let all = Pointees-map _ _ (λ b. deep-is_memoizable n b st) m.submods subs in
      ground (arith, Pointees-memoizable_all (λ b. is_memoizable n st b) m.submods all)

  -- `is_memoizable` returns true if and only if the module, and every module that its submodules
  -- lead to at a depth within the fuel, has a uuid and has its memoization turned on.
  pub is_memoizable_iff :
      (n a : ℕ) (st : Store A C) → (is_memoizable n st a ≡ ok true) ↔ MemoizableFrom n st a
  is_memoizable_iff n a st = (is_memoizable-deep n a st, deep-is_memoizable n a st)
