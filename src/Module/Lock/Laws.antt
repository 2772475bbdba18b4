-- ===== src/Module/Lock/Laws.antt =====
-- What locking changes, and what it reaches.
use plugin_play.Base.{
  ℕ, zero, suc, String, Bool, true, false, ◌≡◌, refl, ◌∙◌, Option, none, some, [], ◌∷◌, arith,
  if◌then◌else◌,
}
use plugin_play.Base.Order.{Order}
use plugin_play.Base.Result.{Result, ok, err, Error, fault, overflow}
use plugin_play.Base.Exec.{Exec, reads, throw, continue, ◌>>=◌}
use plugin_play.Module.{Module, SubmoduleRequest, SubmoduleMap, Store, deref}
use plugin_play.Module.Lock.{Locks, lock_request, lock_all, set_locked, lock}

module _ {A : Type 0} where
  -- The module without its lock.
  abbrev pub open_module : Option (Module A) → Option (Module A)
  open_module none = none
  open_module (some m) = some (record m { locked = false })

  abbrev pub is_locked : Option (Module A) → Bool
  is_locked none = false
  is_locked (some m) = m.locked

-- Nothing but locks differs, and no lock is gone.
pub record OnlyLocks {A C : Type 0} (st st' : Store A C) : Type 0 where
  pub frame : (b : ℕ) → open_module (st'.modules b) ≡ open_module (st.modules b)
  pub keeps : (b : ℕ) → is_locked (st.modules b) ≡ true → is_locked (st'.modules b) ≡ true
  pub caches : st'.caches ≡ st.caches

module _ {A C : Type 0} where
  pub OnlyLocks-refl : (st : Store A C) → OnlyLocks st st
  OnlyLocks-refl st = record { frame = λ b. refl; keeps = λ b h. h; caches = refl }

  pub OnlyLocks-trans :
      (st st' st'' : Store A C) → OnlyLocks st st' → OnlyLocks st' st'' → OnlyLocks st st''
  OnlyLocks-trans st st' st'' g h = record {
    frame = λ b. h.frame b ∙ g.frame b;
    keeps = λ b l. h.keeps b (g.keeps b l);
    caches = h.caches ∙ g.caches;
  }

-- An action that sets locks and changes nothing else, whether it returns or throws.
pub record KeepsRest {A C B : Type 0} (m : Exec (Store A C) B) : Type 0 where
  pub at : (st : Store A C) → OnlyLocks st (m st).1

module _ {A C B : Type 0} where
  KeepsRest-reads : (f : Store A C → Result B) → KeepsRest (reads f)
  KeepsRest-reads f = record { at = λ st. OnlyLocks-refl st }

  KeepsRest-throw : (e : Error) → KeepsRest {A = A} {C = C} {B = B} (throw e)
  KeepsRest-throw e = record { at = λ st. OnlyLocks-refl st }

  KeepsRest-if :
      (b : Bool) (m k : Exec (Store A C) B)
      → KeepsRest m
      → KeepsRest k
      → KeepsRest (if b then m else k)
  KeepsRest-if true m k hm hk = hm
  KeepsRest-if false m k hm hk = hk

module _ {A C B D : Type 0} where
  KeepsRest-continue :
      (r : Result B) (f : B → Exec (Store A C) D) (st s : Store A C)
      → OnlyLocks st s
      → ((b : B) → KeepsRest (f b))
      → OnlyLocks st (continue r f s).1
  KeepsRest-continue (ok b) f st s h k = OnlyLocks-trans st s _ h ((k b).at s)
  KeepsRest-continue (err e) f st s h k = h

  KeepsRest-bind :
      (m : Exec (Store A C) B) (f : B → Exec (Store A C) D)
      → KeepsRest m
      → ((b : B) → KeepsRest (f b))
      → KeepsRest (m >>= f)
  KeepsRest-bind m f h k = record {
    at = λ st. KeepsRest-continue (m st).0 f st (m st).1 (h.at st) k;
  }

module _ {A C : Type 0} (strings : Order String) where
  pub set_locked-KeepsRest : (a : ℕ) → KeepsRest {A = A} {C = C} (set_locked strings a)
  unfolding set_locked
  set_locked-KeepsRest a = record {
    at = λ st. record {
      frame = λ b. ground arith;
      keeps = λ b h. ground arith;
      caches = ground arith;
    };
  }

  module _ (n : ℕ) (go : ℕ → Locks A C) (keep : (b : ℕ) → KeepsRest (go b)) where
    follow-KeepsRest :
        (o : Option ℕ)
        → KeepsRest {A = A} {C = C} {B = Unit {0}} (elim o [ none ↦ throw fault | some b ↦ go b ])
    follow-KeepsRest none = KeepsRest-throw fault
    follow-KeepsRest (some b) = keep b

    lock_request-KeepsRest : (r : SubmoduleRequest A) → KeepsRest (lock_request strings n go r)
    unfolding lock_request
    lock_request-KeepsRest r =
        KeepsRest-bind _ _ (KeepsRest-reads _)
          λ fine. KeepsRest-if fine _ _ (follow-KeepsRest r.module_ptr) (KeepsRest-throw _)

    pub lock_all-KeepsRest : (submods : SubmoduleMap A) → KeepsRest (lock_all strings n go submods)
    unfolding lock_all
    lock_all-KeepsRest [] = KeepsRest-reads _
    lock_all-KeepsRest ((k, r) ∷ submods) =
        KeepsRest-bind _ _ (lock_request-KeepsRest r) (λ _. lock_all-KeepsRest submods)

  pub lock-KeepsRest : (n a : ℕ) → KeepsRest {A = A} {C = C} (lock strings n a)
  unfolding lock
  lock-KeepsRest zero a = KeepsRest-throw overflow
  lock-KeepsRest (suc n) a =
      KeepsRest-bind {B = Module A} (λ st. (deref st a, st)) _ (KeepsRest-reads _)
        λ m.
          KeepsRest-bind _ _
            (lock_all-KeepsRest n (λ b. lock strings n b) (λ b. lock-KeepsRest n b) m.submods)
            (λ _. set_locked-KeepsRest a)

  -- Locking a module, whether it succeeds or throws half-way, sets locks and changes nothing
  -- else.
  pub lock-OnlyLocks : (n a : ℕ) (st : Store A C) → OnlyLocks st (lock strings n a st).1
  lock-OnlyLocks n a st = (lock-KeepsRest n a).at st
