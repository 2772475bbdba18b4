-- ===== src/Tests/Reports.antt =====
-- The text on modules that are not ready, the runs that throw it, and the text on the time spent.
use plugin_play.Base.{
  ℕ, String, false, ◌≡◌, refl, subst, some, List, [], ◌∷◌, str_eq, arith, concat, ◌==◌,
  if◌then◌else◌, All, Bool-cases, inl, inr,
}
use plugin_play.Base.Order
use plugin_play.Base.TextOrder
use plugin_play.Base.TextOrder.{text_order}
use plugin_play.Base.Set
use plugin_play.Base.Map.{keys}
use plugin_play.Base.Result.{ok, err, runtime_error, ◌>>=◌}
use plugin_play.Module.{Module, Store}
use plugin_play.Module.Ready.{ready}
use plugin_play.Module.Report.{print_not_ready}
use plugin_play.Module.Report.Complete.{print_not_ready-ok}
use plugin_play.Module.Profile.{profile_info}
use plugin_play.Module.Profile.Lines.{IsLine, unlines}
use plugin_play.Module.Profile.Listing.{listing, profile_info-listing}
use plugin_play.Module.Run.{run}
use plugin_play.Module.Run.Refuses.{run_not_ready}
use plugin_play.Tests.Data.{leaf, open_input, open_request, store, three_modules}
use plugin_play.Tests.Modules.{store-IsLayered}
use plugin_play.Tests.Runs.{world}

-- A module whose submodule is the one at 2, and which has an input without a value.
abbrev asks_asker : Module ℕ
asks_asker = record leaf {
  inputs = ("height", open_input) ∷ [];
  submods = ("base", record open_request { module_ptr = some 2 }) ∷ [];
}

abbrev deep_store : Store ℕ ℕ
deep_store = record store { modules = λ a. if a == 3 then some asks_asker else three_modules a }

nested_text :
    print_not_ready text_order text_order 3 deep_store 3 [] ""
    ≡ ok (
        concat "Inputs that are not ready:\n  height\nSubmodules that are not ready:\n"
          "  base:\n    Submodules that are not ready:\n      area is not set.\n")
unfolding print_not_ready Set.insert Order.same TextOrder.less_text Order.less_nat
nested_text = refl

print_not_ready-ok_example :
    (text : String) × (print_not_ready text_order text_order 3 store 2 [] "" ≡ ok text)
    × (ready text_order 3 store 2 [] ≡ ok (str_eq text ""))
print_not_ready-ok_example =
    print_not_ready-ok text_order text_order store (λ a. a) store-IsLayered 3 2 [] "" refl
      (omega arith)

run_not_ready_example :
    (why : String) × (print_not_ready text_order text_order 3 store 2 [] "" ≡ ok why)
    × (str_eq why "" ≡ false)
    × (run world 3 2 [] store ≡ (err (runtime_error why), store))
unfolding ready Set.insert
run_not_ready_example =
    run_not_ready world store (λ a. a) 3 2 [] store-IsLayered refl (omega arith) refl refl

-- A module that calls the one at 1, each of which has run once.
abbrev caller : Module ℕ
caller = record leaf { submods = ("side", record open_request { module_ptr = some 1 }) ∷ [] }

abbrev calling : Store ℕ ℕ
calling = record { modules = λ a. if a == 2 then some caller else some leaf; caches = 0 }

abbrev times : ℕ → List String
times a = "run: 1 s" ∷ []

calling_keys : (a : ℕ) (m : Module ℕ) → calling.modules a ≡ some m → All IsLine (keys m.submods)
calling_keys a m h = elim (Bool-cases (a == 2)) [
  | inl e ↦
      let is : caller ≡ m = ground arith in
      subst (λ n. All IsLine (keys n.submods)) is ((refl, (refl, (refl, (refl, tt)))), tt)
  | inr e ↦ let is : leaf ≡ m = ground arith in subst (λ n. All IsLine (keys n.submods)) is tt
]

profile_text :
    profile_info (λ a. unlines (times a)) 2 calling 2 ≡ ok "run: 1 s\n  side\n    run: 1 s\n"
unfolding profile_info
profile_text = refl

profile_info-listing_example :
    profile_info (λ a. unlines (times a)) 2 calling 2
    ≡ (listing times 2 calling 2 "" >>= λ lines. ok (unlines lines))
profile_info-listing_example =
    profile_info-listing (λ a. unlines (times a)) times calling
      (λ a. (refl, ((refl, (refl, (refl, (refl, (refl, (refl, (refl, (refl, tt)))))))), tt)))
      calling_keys 2 2
