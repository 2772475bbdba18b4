-- ===== src/Module/Lock/Reach.antt =====
-- A lock that succeeds reaches every submodule, at any depth.
use plugin_play.Base.{
  ℕ, zero, suc, String, true, ◌≡◌, refl, sym, ap, subst, ◌∙◌, Option, none, some, [], ◌∷◌, arith,
}
use plugin_play.Base.Order.{Order}
use plugin_play.Base.Result.{ok}
use plugin_play.Base.Exec.{reads, ◌>>◌, >>=-eq_ok}
use plugin_play.Module.{Module, SubmoduleRequest, SubmoduleMap, Store, deref}
use plugin_play.Module.Lock.{Locks, lock_request, lock_all, set_locked, lock}
use plugin_play.Module.Lock.Laws.{
  OnlyLocks, KeepsRest, lock_all-KeepsRest, set_locked-KeepsRest, lock-KeepsRest,
}

module _ {A : Type 0} where
  -- The property of what the requests of a map point to; no request is open.
  abbrev pub Pointees : (ℕ → Type 0) → SubmoduleMap A → Type 0
  Pointees P [] = Unit
  Pointees P ((k, r) ∷ submods) = ((b : ℕ) × (r.module_ptr ≡ some b) × P b) × Pointees P submods

  pub Pointees-map :
      (P Q : ℕ → Type 0)
      → ((b : ℕ) → P b → Q b)
      → (submods : SubmoduleMap A) → Pointees P submods
      → Pointees Q submods
  Pointees-map P Q f [] h = tt
  Pointees-map P Q f ((k, r) ∷ submods) ((b, e, p), h) =
      ((b, e, f b p), Pointees-map P Q f submods h)

module _ {A C : Type 0} where
  -- The module is locked, and so are all that its submodules lead to.
  pub LockedFrom : ℕ → Store A C → ℕ → Type 0
  LockedFrom zero st a = ⊥
  LockedFrom (suc n) st a =
      (m : Module A) × (st.modules a ≡ some m)
      × (m.locked ≡ true)
      × Pointees (λ b. LockedFrom n st b) m.submods

  still_there :
      (a : ℕ) (st st' : Store A C) (m : Module A)
      → OnlyLocks st st'
      → st.modules a ≡ some m
      → (m' : Module A) × (st'.modules a ≡ some m')
        × (m'.submods ≡ m.submods)
        × (m.locked ≡ true → m'.locked ≡ true)
  still_there a st st' m h e = go (st'.modules a) refl
    where
      go :
          (o : Option (Module A))
          → st'.modules a ≡ o
          → (m' : Module A) × (o ≡ some m')
            × (m'.submods ≡ m.submods)
            × (m.locked ≡ true → m'.locked ≡ true)
      go none f = absurd (ground (arith, h.frame a))
      go (some m') f = (m', refl, ground (arith, h.frame a), λ l. ground (arith, h.keeps a))

  LockedFrom-OnlyLocks :
      (n a : ℕ) (st st' : Store A C) → OnlyLocks st st' → LockedFrom n st a → LockedFrom n st' a
  unfolding LockedFrom
  LockedFrom-OnlyLocks zero a st st' h l = l
  LockedFrom-OnlyLocks (suc n) a st st' h (m, e, l, subs) =
      let (m', e', same, keeps) = still_there a st st' m h e in
      (
        m',
        e',
        keeps l,
        rw same (Pointees-map _ _ (λ b. LockedFrom-OnlyLocks n b st st' h) m.submods subs),
      )

module _ {A C : Type 0} (strings : Order String) where
  lock_request-ok :
      (n : ℕ) (go : ℕ → Locks A C) (r : SubmoduleRequest A) (st : Store A C)
      → (lock_request strings n go r st).0 ≡ ok tt
      → (b : ℕ) × (r.module_ptr ≡ some b) × (lock_request strings n go r st ≡ go b st)
  unfolding lock_request
  lock_request-ok n go r st h = go_on (r.module_ptr) refl
    where
      go_on :
          (o : Option ℕ)
          → r.module_ptr ≡ o
          → (b : ℕ) × (r.module_ptr ≡ some b) × (lock_request strings n go r st ≡ go b st)
      go_on none e = absurd (ground arith)
      go_on (some b) e = (b, e, ground arith)

  lock_all-ok :
      (n : ℕ) (P : Store A C → ℕ → Type 0) (go : ℕ → Locks A C)
      → ((b : ℕ) → KeepsRest (go b))
      → ((b : ℕ) (s s' : Store A C) → OnlyLocks s s' → P s b → P s' b)
      → ((b : ℕ) (s : Store A C) → (go b s).0 ≡ ok tt → P (go b s).1 b)
      → (submods : SubmoduleMap A) (st : Store A C) → (lock_all strings n go submods st).0 ≡ ok tt
      → Pointees (P (lock_all strings n go submods st).1) submods
  unfolding lock_all
  lock_all-ok n P go keeps moves locks [] st h = tt
  lock_all-ok n P go keeps moves locks ((k, r) ∷ submods) st h =
      let now = lock_request strings n go r in
      let then_all = lock_all strings n go submods in
      let (u, first, rest) = >>=-eq_ok now (λ _. then_all) st h in
      let (b, e, q) = lock_request-ok n go r st first in
      let here : P (now st).1 b =
        subst (λ x. P x.1 b) (sym q) (locks b st (ap (λ x. x.0) (sym q) ∙ first)) in
      let later = (lock_all-KeepsRest strings n go keeps submods).at (now st).1 in
      let there =
        lock_all-ok n P go keeps moves locks submods (now st).1 (ap (λ x. x.0) (sym rest) ∙ h) in
      subst (λ x. Pointees (P x.1) ((k, r) ∷ submods)) (sym rest)
        ((b, e, moves b (now st).1 (then_all (now st).1).1 later here), there)

  set_locked-ok :
      (a : ℕ) (st : Store A C) (m : Module A)
      → st.modules a ≡ some m
      → (set_locked strings a st).1.modules a ≡ some (record m { locked = true })
  unfolding set_locked
  set_locked-ok a st m h = ground arith

  -- If locking a module succeeds, the module is locked afterwards, and so is every module that
  -- its submodules lead to.
  pub lock-LockedFrom :
      (n a : ℕ) (st : Store A C)
      → (lock strings n a st).0 ≡ ok tt
      → LockedFrom n (lock strings n a st).1 a
  unfolding lock LockedFrom
  lock-LockedFrom zero a st h = cc
  lock-LockedFrom (suc n) a st h =
      let every = λ (m : Module A). lock_all strings n (λ b. lock strings n b) m.submods in
      let (m, found, rest) =
        >>=-eq_ok (reads (λ s. deref s a)) (λ m. every m >> set_locked strings a) st h in
      let (u, all_ok, last) =
        >>=-eq_ok (every m) (λ _. set_locked strings a) st (ap (λ x. x.0) (sym rest) ∙ h) in
      let mid = (every m st).1 in
      let kept =
        (lock_all-KeepsRest strings n (λ b. lock strings n b) (λ b. lock-KeepsRest strings n b)
            m.submods).at
          st in
      let subs =
        lock_all-ok n (λ s b. LockedFrom n s b) (λ b. lock strings n b)
          (λ b. lock-KeepsRest strings n b) (λ b s s' k l. LockedFrom-OnlyLocks n b s s' k l)
          (λ b s e. lock-LockedFrom n b s e) m.submods st all_ok in
      let (m', found', same, _) = still_there a st mid m kept (ground (arith)) in
      let final = (set_locked-KeepsRest strings a).at mid in
      subst (λ x. LockedFrom (suc n) x.1 a) (sym (rest ∙ last))
        ((
          record m' { locked = true },
          set_locked-ok a mid m' found',
          refl,
          rw same (
              Pointees-map _ _
                (λ b. LockedFrom-OnlyLocks n b mid (set_locked strings a mid).1 final) m.submods
                subs),
        ))
