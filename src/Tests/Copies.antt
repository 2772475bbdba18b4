-- ===== src/Tests/Copies.antt =====
-- The theorem on copies, at a module that calls another.
use plugin_play.Base.{ℕ, zero, suc, not, false, ◌≡◌, refl, some, subst, arith}
use plugin_play.Base.Result.{ok}
use plugin_play.Any.{storing_python_object}
use plugin_play.Module.{Module}
use plugin_play.Module.Setters.{unlocked_copy}
use plugin_play.Module.Copy.Owned.{owned_module}
use plugin_play.Module.Equal.{module_eq, equal_at}
use plugin_play.Module.Equal.Copies.{IsComparable, IsBaseComparable, module_eq-unlocked_copy}
use plugin_play.Tests.Data.{
  py, numbers, numbers_laws, area_base, leaf, caller, asker, three_modules, store,
}
use plugin_play.Tests.Modules.{inj, caller-LeadsBack}

abbrev Comparable : ℕ → Module ℕ → Type 0
Comparable top m = IsComparable py numbers numbers_laws store (λ a. a) top m

area_base-IsComparable :
    (top : ℕ) → IsBaseComparable py numbers numbers_laws store (λ a. a) top area_base
unfolding storing_python_object
area_base-IsComparable top = record { inputs = (refl, tt); results = tt; submods = tt }

leaf-IsComparable : Comparable 0 leaf
unfolding storing_python_object
leaf-IsComparable = record {
  inputs = (refl, tt);
  submods = tt;
  base = λ b e.
      subst (IsBaseComparable py numbers numbers_laws store (λ a. a) 0) (inj b e)
        (area_base-IsComparable 0);
}

caller-IsComparable : Comparable 1 caller
unfolding storing_python_object
caller-IsComparable = record {
  inputs = (refl, tt);
  submods = (caller-LeadsBack, tt);
  base = λ b e.
      subst (IsBaseComparable py numbers numbers_laws store (λ a. a) 1) (inj b e)
        (area_base-IsComparable 1);
}

asker-IsComparable : Comparable 2 asker
unfolding storing_python_object
asker-IsComparable = record {
  inputs = (refl, tt);
  submods = ((λ b e. absurd (ground arith)), tt);
  base = λ b e.
      subst (IsBaseComparable py numbers numbers_laws store (λ a. a) 2) (inj b e)
        (area_base-IsComparable 2);
}

there-IsComparable : (a : ℕ) (m : Module ℕ) → three_modules a ≡ some m → Comparable a m
there-IsComparable zero m h = subst (Comparable 0) (inj m h) leaf-IsComparable
there-IsComparable (suc zero) m h = subst (Comparable 1) (inj m h) caller-IsComparable
there-IsComparable (suc (suc zero)) m h = subst (Comparable 2) (inj m h) asker-IsComparable
there-IsComparable (suc (suc (suc a))) m h = absurd (ground arith)

module_eq-unlocked_copy_example :
    (c : Module ℕ) × (unlocked_copy py caller ≡ ok c)
    × (c ≡ record (owned_module caller) { locked = false })
    × (module_eq py numbers (λ a b. equal_at py numbers 1 store a b) caller c
        ≡ ok (not caller.locked))
unfolding storing_python_object
module_eq-unlocked_copy_example =
    module_eq-unlocked_copy py numbers numbers_laws store (λ a. a) there-IsComparable 1 caller
      caller-IsComparable (record { inputs = (refl, tt); submods = (tt, tt) })
