-- ===== src/Module/Lock.antt =====
-- ModulePIMPL::lock and unlock, and SubmoduleRequestPIMPL::lock. The state comes back beside an
-- error too: the modules that were locked before the exception stay locked.
pub mod Laws
pub mod Reach
pub mod Succeeds
use plugin_play.Base.{
  ℕ, zero, suc, Bool, true, false, Option, none, some, List, [], ◌∷◌, String, if◌then◌else◌,
}
use plugin_play.Base.Order.{Order}
use plugin_play.Base.Result.{ok, err, runtime_error, overflow, fault}
use plugin_play.Base.Exec.{Exec, pure, throw, reads, ◌>>=◌, ◌>>◌}
use plugin_play.Module.{Module, SubmoduleRequest, SubmoduleMap, Store, write, deref}
use plugin_play.Module.Ready.{request_ready, ready}

-- The locks of a map's submodules, or of one module.
abbrev pub Locks : Type 0 → Type 0 → Type 0
Locks A C = Exec (Store A C) (Unit {0})

module _ {A C : Type 0} (strings : Order String) where
  -- SubmoduleRequestPIMPL::lock; `go` is Module::lock, `n` bounds the levels below the submodule.
  unfoldable pub lock_request : ℕ → (ℕ → Locks A C) → SubmoduleRequest A → Locks A C
  unfolding request_ready ready
  lock_request n go r = do
    fine ← reads (λ st. request_ready strings (λ b inps. ready strings n st b inps) r)
    if fine
        then elim r.module_ptr [ none ↦ throw fault | some b ↦ go b ]
        else throw (runtime_error "Can't lock a non-ready module")

  -- the loop of ModulePIMPL::lock
  unfoldable pub lock_all : ℕ → (ℕ → Locks A C) → SubmoduleMap A → Locks A C
  unfolding lock_request
  lock_all n go [] = pure tt
  lock_all n go ((k, r) ∷ submods) = do lock_request n go r; lock_all n go submods

  -- m_locked_ = true
  unfoldable pub set_locked : ℕ → Locks A C
  unfolding write
  set_locked a st = elim (st.modules a) [
    | none ↦ (err fault, st)
    | some m ↦ (ok tt, write st a (record m { locked = true }))
  ]

  -- ModulePIMPL::lock
  unfoldable pub lock : ℕ → ℕ → Locks A C
  unfolding lock_all set_locked
  lock zero a = throw overflow
  lock (suc n) a = do
    m ← reads (λ st. deref st a)
    lock_all n (λ b. lock n b) m.submods
    set_locked a

-- ModulePIMPL::unlock
unfoldable pub unlock : {A : Type 0} → Module A → Module A
unlock m = record m { locked = false }
