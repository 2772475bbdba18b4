-- ===== src/Printing/Mermaid/Codes.antt =====
-- Which nodes of a graph get the same code.
use plugin_play.Base.{ℕ, zero, suc, ◌+◌, ◌*◌, ◌-◌, ◌≤◌, ◌≡◌, List, [], ◌∷◌}
use plugin_play.Printing.Mermaid.{add_letter, first_code}

-- The code after a number of nodes.
unfoldable pub nth_code : ℕ → List ℕ
nth_code zero = first_code
nth_code (suc n) = add_letter (nth_code n)

-- Three capital letters, as a number in base 26.
abbrev IsLetter : ℕ → Type 0
IsLetter c = (65 ≤ c) × (c ≤ 90)

abbrev number : ℕ → ℕ → ℕ → ℕ
number a b c = (a - 65) * 676 + (b - 65) * 26 + (c - 65)

record HasNumber (code : List ℕ) (n : ℕ) : Type 0 where
  a : ℕ
  b : ℕ
  c : ℕ
  is : code ≡ a ∷ b ∷ c ∷ []
  first : IsLetter a
  second : IsLetter b
  third : IsLetter c
  counts : number a b c ≡ n
