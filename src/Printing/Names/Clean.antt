-- ===== src/Printing/Names/Clean.antt =====
-- What replace_invalid_chars does to a text.
use Prim.Native.Char.{Char, code}
use Prim.Native.String.{[], ◌∷◌}
use plugin_play.Base.{String, Bool, false, ◌||◌, ◌≡◌, refl, arith, ◌==◌, if◌then◌else◌}
use plugin_play.Printing.Names.{replace, replace_invalid_chars}

unfoldable pub contains : Char → String → Bool
contains c [] = false
contains c (d ∷ s) = (code c == code d) || contains c s

-- each character on its own
unfoldable pub cleaned : String → String → Char → String
unfolding contains
cleaned [] invalid new = []
cleaned (c ∷ s) invalid new = (if contains c invalid then new else c) ∷ cleaned s invalid new

contains-replaced :
    (c d new : Char) (invalid : String)
    → (if contains (if code c == code d then new else c) invalid
        then new
        else (if code c == code d then new else c))
      ≡ (if (code c == code d) || contains c invalid then new else c)
contains-replaced c d new invalid = ground arith

cleaned-replace :
    (s : String) (d new : Char) (invalid : String)
    → cleaned (replace d new s) invalid new ≡ cleaned s (d ∷ invalid) new
unfolding cleaned replace
cleaned-replace [] d new invalid = refl
cleaned-replace (c ∷ s) d new invalid =
    rw (contains-replaced c d new invalid, cleaned-replace s d new invalid) refl

cleaned-nil : (s : String) (new : Char) → cleaned s [] new ≡ s
unfolding cleaned
cleaned-nil [] new = refl
cleaned-nil (c ∷ s) new = rw (cleaned-nil s new) refl

-- replace_invalid_chars puts the replacement in the place of every character that is invalid, and
-- leaves every other one, whether the replacement is itself an invalid character or not.
pub replace_invalid_chars_lem :
    (str invalid : String) (replacement : Char)
    → replace_invalid_chars str invalid replacement ≡ cleaned str invalid replacement
unfolding replace_invalid_chars
replace_invalid_chars_lem str [] replacement = rw (cleaned-nil str replacement) refl
replace_invalid_chars_lem str (c ∷ invalid) replacement =
    rw (replace_invalid_chars_lem (replace c replacement str) invalid replacement)
      (cleaned-replace str c replacement invalid)
