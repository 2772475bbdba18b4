-- ===== src/Tests/Strokes.antt =====
-- Texts of strokes, for the names that the tests hand out.
use Prim.Native.String.{String, [], ◌∷◌}
use text.Mathlib.TextLemmas.{cons-append, nil-append}
use plugin_play.Base.{false, sym, subst, concat, ◌∙◌, ℕ, zero, suc, true, ◌≡◌, refl, ap}
use plugin_play.Base.Order.{same, less_nat}
use plugin_play.Base.TextOrder.{text_order, less_text, text_order-IsExact}

-- As many strokes as the number says
unfoldable pub strokes : ℕ → String
strokes zero = []
strokes (suc n) = "I" ∷ strokes n

-- At least one stroke
abbrev pub tallies : ℕ → String
tallies n = strokes (suc n)

injective : (i j : ℕ) → strokes i ≡ strokes j → i ≡ j
unfolding strokes
injective zero zero h = refl
injective zero (suc j) h = absurd cc
injective (suc i) zero h = absurd cc
injective (suc i) (suc j) h = ap suc (injective i j cc)

behind_letter : (s : String) → concat "k" s ≡ "k" ∷ s
behind_letter s = cons-append "k" [] s ∙ ap (λ r. "k" ∷ r) (nil-append s)

behind : (s t : String) → concat "k" s ≡ concat "k" t → s ≡ t
behind s t h = let e = sym (behind_letter s) ∙ h ∙ behind_letter t in cc

pub behind_differs : (n : ℕ) → same text_order "k" (concat "k" (tallies n)) ≡ false
unfolding same less_text less_nat strokes
behind_differs n = subst (λ x. same text_order "k" x ≡ false) (sym (behind_letter (tallies n))) refl

pub strokes_apart : (i j : ℕ) → same text_order (strokes i) (strokes j) ≡ true → i ≡ j
strokes_apart i j h = injective i j (text_order-IsExact (strokes i) (strokes j) h)

-- The same behind a letter
pub tallies_apart :
    (i j : ℕ) → same text_order (concat "k" (tallies i)) (concat "k" (tallies j)) ≡ true → i ≡ j
tallies_apart i j h =
    let e =
      behind (tallies i) (tallies j)
        (text_order-IsExact (concat "k" (tallies i)) (concat "k" (tallies j)) h) in
    let suc_e = injective (suc i) (suc j) e in cc
