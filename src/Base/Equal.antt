-- ===== src/Base/Equal.antt =====
-- operator== of the standard containers.
use plugin_play.Base.{
  String, Bool, true, false, ◌≡◌, refl, Option, none, some, List, [], ◌∷◌, length, ◌==◌, ==-refl,
  str_eq, eq_iff, arith, if◌then◌else◌,
}
use plugin_play.Base.Map.{Map, AllValues, map_values}
use plugin_play.Base.Result.{Result, ok, ◌>>=◌}

abbrev pub bool_eq : Bool → Bool → Bool
bool_eq true b = b
bool_eq false true = false
bool_eq false false = true

pub bool_eq_refl : (b : Bool) → bool_eq b b ≡ true
bool_eq_refl true = refl
bool_eq_refl false = refl

pub str_eq_refl : (s : String) → str_eq s s ≡ true
str_eq_refl s = (eq_iff s s).1 refl

module _ {A : Type 0} (eq : A → A → Bool) where
  -- std::optional
  unfoldable pub option_eq : Option A → Option A → Bool
  option_eq none none = true
  option_eq (some a) (some b) = eq a b
  option_eq _ _ = false

  -- std::set and std::vector
  unfoldable pub list_eq : List A → List A → Bool
  list_eq [] [] = true
  list_eq (x ∷ xs) (y ∷ ys) = if eq x y then list_eq xs ys else false
  list_eq _ _ = false

  pub option_eq_refl : ((a : A) → eq a a ≡ true) → (o : Option A) → option_eq o o ≡ true
  unfolding option_eq
  option_eq_refl h none = refl
  option_eq_refl h (some a) = h a

  pub list_eq_refl : ((a : A) → eq a a ≡ true) → (xs : List A) → list_eq xs xs ≡ true
  unfolding list_eq
  list_eq_refl h [] = refl
  list_eq_refl h (x ∷ xs) = rw (h x) (list_eq_refl h xs)

-- std::map with an operator== of the values that may throw
module _ {V : Type 0} (eq : V → V → Result Bool) where
  entries_eq : Map String V → Map String V → Result Bool
  entries_eq [] [] = ok true
  entries_eq ((k, v) ∷ m) ((j, w) ∷ n) =
      if str_eq k j then (do same ← eq v w; if same then entries_eq m n else ok false) else ok false
  entries_eq _ _ = ok false

  unfoldable pub map_eq : Map String V → Map String V → Result Bool
  unfolding entries_eq
  map_eq m n = if length m == length n then entries_eq m n else ok false

  entries_eq_refl :
      (m : Map String V) → AllValues (λ v. eq v v ≡ ok true) m → entries_eq m m ≡ ok true
  unfolding entries_eq
  entries_eq_refl [] h = refl
  entries_eq_refl ((k, v) ∷ m) (h, hs) = rw (str_eq_refl k, h) (entries_eq_refl m hs)

  pub map_eq_refl : (m : Map String V) → AllValues (λ v. eq v v ≡ ok true) m → map_eq m m ≡ ok true
  unfolding map_eq
  map_eq_refl m h = rw (==-refl (length m)) (entries_eq_refl m h)

  length-map_values : (f : V → V) (m : Map String V) → length (map_values f m) ≡ length m
  length-map_values f [] = refl
  length-map_values f ((k, v) ∷ m) = ground (arith, length-map_values f m)

  entries_eq-map_values :
      (f : V → V) (m : Map String V)
      → AllValues (λ v. eq v (f v) ≡ ok true) m
      → entries_eq m (map_values f m) ≡ ok true
  unfolding entries_eq
  entries_eq-map_values f [] h = refl
  entries_eq-map_values f ((k, v) ∷ m) (h, hs) =
      rw (str_eq_refl k, h) (entries_eq-map_values f m hs)

  -- A map whose values are changed to equal ones is equal.
  pub map_eq-map_values :
      (f : V → V) (m : Map String V)
      → AllValues (λ v. eq v (f v) ≡ ok true) m
      → map_eq m (map_values f m) ≡ ok true
  unfolding map_eq
  map_eq-map_values f m h =
      rw (length-map_values f m, ==-refl (length m)) (entries_eq-map_values f m h)
