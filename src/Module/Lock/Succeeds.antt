-- ===== src/Module/Lock/Succeeds.antt =====
-- A module that is ready can be locked.
use plugin_play.Base.{
  ℕ, zero, suc, String, Bool, true, false, ◌≡◌, refl, ap, some, List, [], ◌∷◌, arith, Option-cases,
  inl, inr, if◌then◌else◌,
}
use plugin_play.Base.Order.{Order}
use plugin_play.Base.Map.{Map, AllValues}
use plugin_play.Base.Set
use plugin_play.Base.Result.{Result, ok, Result-cases, >>=-eq-ok, noexcept}
use plugin_play.Module.{Module, SubmoduleRequest, SubmoduleMap, InputMap, Store}
use plugin_play.Module.Ready.{not_set_guts, request_ready, not_set, ready, is_empty, NotSet}
use plugin_play.Module.Lock.{Locks, lock_request, lock_all, set_locked, lock}
use plugin_play.Module.Lock.Laws.{
  OnlyLocks, OnlyLocks-trans, OnlyLocks-refl, lock-OnlyLocks, lock_all-KeepsRest, lock-KeepsRest,
}

module _ (strings : Order String) where
  insert_not_empty :
      (k : String) (probs : List String) → is_empty (Set.insert strings k probs) ≡ false
  unfolding Set.insert Set.member
  insert_not_empty k [] = refl
  insert_not_empty k (j ∷ probs) = ground arith

  not_set_guts_empty :
      {V : Type 0} (good : V → Result Bool) (map : Map String V) (probs found : List String)
      → not_set_guts strings good map probs ≡ ok found
      → is_empty found ≡ true
      → (is_empty probs ≡ true) × AllValues (λ v. good v ≡ ok true) map
  unfolding not_set_guts
  not_set_guts_empty good [] probs found h e = (ground arith, tt)
  not_set_guts_empty good ((k, v) ∷ map) probs found h e =
      let (fine, g, rest) =
        >>=-eq-ok (good v)
          (λ fine.
            not_set_guts strings good map (if fine then probs else Set.insert strings k probs))
          h in
      let (none_left, all) =
        not_set_guts_empty good map (if fine then probs else Set.insert strings k probs) found rest
          e in
      (ground (arith, insert_not_empty k probs), (ground (arith, insert_not_empty k probs), all))

  not_set_open :
      {A : Type 0} (go : ℕ → InputMap A → Result Bool) (m m' : Module A) (given : InputMap A)
      → record m' { locked = false } ≡ record m { locked = false }
      → not_set strings go m' given ≡ not_set strings go m given
  unfolding not_set
  not_set_open go m m' given e = ap (λ x. not_set strings go x given) e

  not_set_submods :
      {A : Type 0} (go : ℕ → InputMap A → Result Bool) (m : Module A) (given : InputMap A)
      (found : NotSet)
      → not_set strings go m given ≡ ok found
      → is_empty found.submodules ≡ true
      → AllValues (λ r. noexcept (request_ready strings go r) ≡ ok true) m.submods
  unfolding not_set
  not_set_submods {A = A} go m given found h e =
      let good : SubmoduleRequest A → Result Bool = λ r. noexcept (request_ready strings go r) in
      elim (Result-cases (not_set_guts strings good m.submods [])) [
        | inl (subs, f) ↦ (not_set_guts_empty good m.submods [] subs f (ground arith)).1
        | inr (x, f) ↦ absurd (ground arith)
      ]

  module _ {A C : Type 0} where
    -- Locks do not matter to `ready`.
    ready-OnlyLocks :
        (n a : ℕ) (given : InputMap A) (st st' : Store A C)
        → OnlyLocks st st'
        → ready strings n st' a given ≡ ready strings n st a given
    unfolding ready
    ready-OnlyLocks zero a given st st' h = refl
    ready-OnlyLocks (suc n) a given st st' h =
        let before : ℕ → InputMap A → Result Bool = λ b r. ready strings n st b r in
        let after : ℕ → InputMap A → Result Bool = λ b r. ready strings n st' b r in
        let deeper : after ≡ before = λ i b r. ready-OnlyLocks n b r st st' h i in
        elim (Option-cases (st.modules a)) [
          | inl e ↦ elim (Option-cases (st'.modules a)) [
            | inl f ↦ ground arith
            | inr (m', f) ↦ absurd (ground (arith, h.frame a))
          ]
          | inr (m, e) ↦ elim (Option-cases (st'.modules a)) [
            | inl f ↦ absurd (ground (arith, h.frame a))
            | inr (m', f) ↦
                let same : record m' { locked = false } ≡ record m { locked = false } =
                  ground (arith, h.frame a) in
                ground (
                  arith,
                  e,
                  f,
                  not_set_open after m m' given same,
                  ap (λ go. not_set strings go m given) deeper,
                )
          ]
        ]

    lock_request_go :
        (n b : ℕ) (go : ℕ → Locks A C) (r : SubmoduleRequest A) (st : Store A C)
        → request_ready strings (λ b i. ready strings n st b i) r ≡ ok true
        → r.module_ptr ≡ some b
        → lock_request strings n go r st ≡ go b st
    unfolding lock_request
    lock_request_go n b go r st h e = ground arith

    lock_request-ready :
        (n : ℕ) (go : ℕ → Locks A C) (r : SubmoduleRequest A) (st s : Store A C)
        → OnlyLocks st s
        → noexcept (request_ready strings (λ b i. ready strings n st b i) r) ≡ ok true
        → (b : ℕ) × (ready strings n s b r.inputs ≡ ok true)
          × (lock_request strings n go r s ≡ go b s)
    unfolding request_ready
    lock_request-ready n go r st s l h = elim (Option-cases r.module_ptr) [
      | inl e ↦ absurd (ground arith)
      | inr (b, e) ↦
          let fine : ready strings n s b r.inputs ≡ ok true =
            ground (arith, ready-OnlyLocks n b r.inputs st s l) in
          (b, fine, lock_request_go n b go r s (ground arith) e)
    ]

    lock_all-ready :
        (n : ℕ)
        → ((b : ℕ) (given : InputMap A) (s : Store A C)
            → ready strings n s b given ≡ ok true
            → (lock strings n b s).0 ≡ ok tt)
        → (submods : SubmoduleMap A) (st s : Store A C) → OnlyLocks st s
        → AllValues
            (λ r. noexcept (request_ready strings (λ b i. ready strings n st b i) r) ≡ ok true)
            submods
        → (lock_all strings n (λ b. lock strings n b) submods s).0 ≡ ok tt
    unfolding lock_all
    lock_all-ready n locks [] st s l h = refl
    lock_all-ready n locks ((k, r) ∷ submods) st s l (h, hs) =
        let (b, fine, e) = lock_request-ready n (λ b. lock strings n b) r st s l h in
        let next = (lock strings n b s).1 in
        let rest =
          lock_all-ready n locks submods st next
            (OnlyLocks-trans st s next l (lock-OnlyLocks strings n b s)) hs in
        ground (arith, e, locks b r.inputs s fine, rest)

    set_locked-ok :
        (a : ℕ) (m : Module A) (st s : Store A C)
        → OnlyLocks st s
        → st.modules a ≡ some m
        → (set_locked strings a s).0 ≡ ok tt
    unfolding set_locked
    set_locked-ok a m st s l e = ground (arith, l.frame a)

    -- A module that is ready can be locked, with the same fuel: no request below it throws.
    pub ready-lock :
        (n a : ℕ) (given : InputMap A) (st : Store A C)
        → ready strings n st a given ≡ ok true
        → (lock strings n a st).0 ≡ ok tt
    unfolding ready lock
    ready-lock zero a given st h = absurd (ground arith)
    ready-lock (suc n) a given st h =
        let go : ℕ → InputMap A → Result Bool = λ b r. ready strings n st b r in
        elim (Option-cases (st.modules a)) [
          | inl e ↦ absurd (ground arith)
          | inr (m, e) ↦ elim (Result-cases (not_set strings go m given)) [
            | inr (x, f) ↦ absurd (ground arith)
            | inl (found, f) ↦
                let submods = not_set_submods go m given found f (ground arith) in
                let all =
                  lock_all-ready n (λ b i s. ready-lock n b i s) m.submods st st (OnlyLocks-refl st)
                    submods in
                let kept =
                  (lock_all-KeepsRest strings n (λ b. lock strings n b)
                      (λ b. lock-KeepsRest strings n b) m.submods).at
                    st in
                ground (
                  arith,
                  all,
                  set_locked-ok a m st (lock_all strings n (λ b. lock strings n b) m.submods st).1
                      kept e,
                )
          ]
        ]
