-- ===== src/Module/Run/Refuses.antt =====
-- Runs that are refused.
use plugin_play.Base.{ℕ, ◌<◌, String, true, false, ◌≡◌, has, str_eq, arith, Option-cases, inl, inr}
use plugin_play.Base.Result.{ok, err, runtime_error}
use plugin_play.Module.{InputMap, Store}
use plugin_play.Module.Ready.{ready}
use plugin_play.Module.Ready.Fuel.{IsLayered}
use plugin_play.Module.Report.{print_not_ready}
use plugin_play.Module.Report.Complete.{print_not_ready-ok}
use plugin_play.Module.World.{World}
use plugin_play.Module.Run.{run, all_ready}

module _ {A C : Type 0} (w : World A C) (st : Store A C) (rank : ℕ → ℕ) where
  -- If every module has a base and no module is below itself, a run with ready inputs of a module
  -- that is not ready, with more fuel than the rank of the module, throws std::runtime_error
  -- with the text of print_not_ready, which is not empty, and changes nothing.
  pub run_not_ready :
      (n a : ℕ) (ps : InputMap A)
      → IsLayered st rank
      → has (st.modules a) ≡ true
      → rank a < n
      → all_ready ps ≡ true
      → ready w.strings n st a ps ≡ ok false
      → (why : String) × (print_not_ready w.cim w.strings n st a ps "" ≡ ok why)
        × (str_eq why "" ≡ false)
        × (run w n a ps st ≡ (err (runtime_error why), st))
  unfolding run
  run_not_ready n a ps layered there low given never = elim (Option-cases (st.modules a)) [
    | inl e ↦ absurd (ground arith)
    | inr (m, e) ↦ elim (Option-cases m.base) [
      | inl f ↦ absurd (ground (arith, layered.based a m e))
      | inr (base, f) ↦
          let (why, told, empty) =
            print_not_ready-ok w.cim w.strings st rank layered n a ps "" there low in
          (why, told, ground arith, ground arith)
    ]
  ]
