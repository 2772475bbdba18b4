-- ===== src/ModuleManager/Equal/Agrees.antt =====
-- What managers that compare equal have in common.
use plugin_play.Base.{
  ℕ, String, Bool, true, false, ◌≡◌, some, has, [], ◌∷◌, length, arith, Bool-cases, Option-cases,
  inl, inr, none, refl, eq_iff, Option,
}
use plugin_play.Base.Order.{Order, same}
use plugin_play.Base.Map.{Map, find, find_congr, count}
use plugin_play.Base.Map.Distinct.{IsDistinct, count-same_size}
use plugin_play.Base.Equal.{list_eq}
use plugin_play.Base.Result.{Result, ok, Result-cases}
use plugin_play.Any.{Python, Values}
use plugin_play.Module.{ModuleBase, Store}
use plugin_play.Module.Equal.{and_then, base_eq, equal_at}
use plugin_play.ModuleManager.{Manager}
use plugin_play.ModuleManager.Equal.{each_eq, default_eq, manager_eq}
use plugin_play.Types.{Rtti, rtti_same, rtti_order}

and_then-ok :
    (lhs rhs : Result Bool) → and_then lhs rhs ≡ ok true → (lhs ≡ ok true) × (rhs ≡ ok true)
and_then-ok lhs rhs h = elim (Result-cases lhs) [
  | inl (true, e) ↦ (e, ground (arith, e))
  | inl (false, e) ↦ absurd (ground (arith, e))
  | inr (x, e) ↦ absurd (ground (arith, e))
]

module _ {K V : Type 0} (o : Order K) (eq : V → V → Result Bool) where
  -- A loop that returns true has found every key of the right map, with an equal value.
  each_eq-find :
      (lhs rhs : Map K V) (k : K) (v : V)
      → each_eq o eq lhs rhs ≡ ok true
      → find o k rhs ≡ some v
      → (w : V) × (find o k lhs ≡ some w) × (eq w v ≡ ok true)
  unfolding each_eq find
  each_eq-find lhs [] k v h f = absurd (ground arith)
  each_eq-find lhs ((j, u) ∷ rhs) k v h f = elim (Option-cases (find o j lhs)) [
    | inl e ↦ absurd (ground (arith, e))
    | inr (w, e) ↦
        let (equal, rest) = and_then-ok (eq w u) (each_eq o eq lhs rhs) (ground (arith, e)) in
        elim (Bool-cases (same o j k)) [
          | inl s ↦ (w, ground (arith, find_congr o j k lhs), ground (arith, equal))
          | inr s ↦ each_eq-find lhs rhs k v rest (ground arith)
        ]
  ]

  each_eq-count :
      (lhs rhs : Map K V)
      → IsDistinct o lhs
      → IsDistinct o rhs
      → length lhs ≡ length rhs
      → each_eq o eq lhs rhs ≡ ok true
      → (k : K) → count o k lhs ≡ count o k rhs
  each_eq-count lhs rhs d e size h = count-same_size o lhs rhs d e size (λ k there.
      elim (Option-cases (find o k rhs)) [
        | inl f ↦ absurd (ground arith)
        | inr (v, f) ↦ ground (arith, (each_eq-find lhs rhs k v h f).1)
      ])

-- m_defaults that compare equal lead every type to the same key.
find-default_eq :
    (lhs rhs : Map Rtti String) (t : Rtti)
    → list_eq default_eq lhs rhs ≡ true
    → find rtti_order t lhs ≡ find rtti_order t rhs
unfolding list_eq find same rtti_same
find-default_eq [] [] t h = refl
find-default_eq [] (x ∷ rhs) t h = absurd (ground arith)
find-default_eq (x ∷ lhs) [] t h = absurd (ground arith)
find-default_eq ((u, k) ∷ lhs) ((v, j) ∷ rhs) t h =
    ground (arith, (eq_iff k j).0, find-default_eq lhs rhs t)

module _ {A C : Type 0} (cim strings : Order String) (py : Python A) (vals : Values A) where
  -- Two searches that find nothing, or modules that compare equal.
  abbrev pub SameModule : ℕ → Store A C → Option ℕ → Option ℕ → Type 0
  SameModule n st none none = Unit
  SameModule n st (some a) (some b) = equal_at py vals n st a b ≡ ok true
  SameModule n st _ _ = ⊥

  same_module :
      (n : ℕ) (st : Store A C) (one two : Option ℕ)
      → has one ≡ has two
      → ((a b : ℕ) → one ≡ some a → two ≡ some b → equal_at py vals n st a b ≡ ok true)
      → SameModule n st one two
  same_module n st none none h k = tt
  same_module n st none (some b) h k = cc
  same_module n st (some a) none h k = cc
  same_module n st (some a) (some b) h k = k a b refl refl

  -- What the comparison has found, where it returns true.
  manager_eq-parts :
      (n : ℕ) (st : Store A C) (lhs rhs : Manager A C)
      → manager_eq cim strings py vals n st lhs rhs ≡ ok true
      → (length lhs.bases ≡ length rhs.bases)
        × (length lhs.modules ≡ length rhs.modules)
        × (each_eq rtti_order (λ _ _. ok true) lhs.bases rhs.bases ≡ ok true)
        × (each_eq cim (λ a b. equal_at py vals n st a b) lhs.modules rhs.modules ≡ ok true)
        × (list_eq default_eq lhs.defaults rhs.defaults ≡ true)
  unfolding manager_eq
  manager_eq-parts n st lhs rhs h =
      let go = λ (a b : ℕ). equal_at py vals n st a b in
      let bases_same = each_eq rtti_order (λ (b c : ModuleBase A). ok true) lhs.bases rhs.bases in
      let modules_same = each_eq cim go lhs.modules rhs.modules in
      let defaults_same : Result Bool = ok (list_eq default_eq lhs.defaults rhs.defaults) in
      let rest = and_then bases_same (and_then modules_same defaults_same) in
      let (py_ok, rest_ok) =
        and_then-ok (each_eq strings (base_eq py vals go) lhs.py_bases rhs.py_bases) rest
          (ground (arith, h)) in
      let (bases_ok, last_ok) =
        and_then-ok bases_same (and_then modules_same defaults_same) rest_ok in
      let (modules_ok, defaults_ok) = and_then-ok modules_same defaults_same last_ok in
      (ground (arith, h), ground (arith, h), bases_ok, modules_ok, ground (arith, defaults_ok))

  -- Managers that compare equal, whose maps hold each key once, have the same keys, which lead to
  -- modules that compare equal, algorithms of the same types, and the same defaults.
  pub manager_eq-agrees :
      (n : ℕ) (st : Store A C) (lhs rhs : Manager A C)
      → IsDistinct cim lhs.modules
      → IsDistinct cim rhs.modules
      → IsDistinct rtti_order lhs.bases
      → IsDistinct rtti_order rhs.bases
      → manager_eq cim strings py vals n st lhs rhs ≡ ok true
      → (k : String) (t : Rtti)
      → SameModule n st (find cim k lhs.modules) (find cim k rhs.modules)
        × (count rtti_order t lhs.bases ≡ count rtti_order t rhs.bases)
        × (find rtti_order t lhs.defaults ≡ find rtti_order t rhs.defaults)
  manager_eq-agrees n st lhs rhs d e db eb h k t =
      let (bases_size, modules_size, bases, modules, defaults) = manager_eq-parts n st lhs rhs h in
      let go = λ (a b : ℕ). equal_at py vals n st a b in
      (
        same_module n st (find cim k lhs.modules) (find cim k rhs.modules)
            (ground
              (arith, each_eq-count cim go lhs.modules rhs.modules d e modules_size modules k))
            (λ a b f g.
              ground (arith, (each_eq-find cim go lhs.modules rhs.modules k b modules g))),
        each_eq-count rtti_order (λ b c. ok true) lhs.bases rhs.bases db eb bases_size bases t,
        find-default_eq lhs.defaults rhs.defaults t defaults,
      )
