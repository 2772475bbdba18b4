-- ===== src/Cache/Memory/Growth.antt =====
-- The heap of caches between calls: its invariant, and what inserting a uuid changes.
use plugin_play.Base.{
  ℕ, suc, ◌≤◌, String, Bool, true, false, ◌≡◌, refl, ◌∙◌, none, some, has, List, [], ◌∷◌, arith,
  Option-cases, inl, inr, if◌then◌else◌,
}
use plugin_play.Base.Order.{Order, same, same_refl, same_comm}
use plugin_play.Base.Map
use plugin_play.Base.Map.{Map}
use plugin_play.Base.Set
use plugin_play.Base.Set.{All}
use plugin_play.Base.Result.{ok}
use plugin_play.Any.{AnyField}
use plugin_play.Fields.ModuleInput.{ModuleInput}
use plugin_play.Cache.Database.{at_get}
use plugin_play.Cache.TypeEraser.{type_eraser, input_any}
use plugin_play.Cache.ProxyMapMaker.{ProxyMap, uuid_count, uuid_insert}
use plugin_play.Cache.Memory.{Heap, Setting, input2uuid, next_uuid}
use plugin_play.Cache.Memory.Table.{
  IsEquality, table, Known, stored, any2uuid-count, any2uuid-at_get, any2uuid-insert, table-stored,
  table_congr,
}

-- generate_uuid never returns an identifier twice.
abbrev pub NeverTwice : Order String → (ℕ → String) → Type 0
NeverTwice strings uuid = (i j : ℕ) → same strings (uuid i) (uuid j) ≡ true → i ≡ j

module _ {A : Type 0} (g : Setting A) (alike : AnyField A → AnyField A → Bool)
    (Fits : AnyField A → Type 0) where
  -- The uuids of a map of uuids are in use.
  abbrev pub used_all : List String → ProxyMap String → Bool
  used_all us [] = true
  used_all us ((k, u) ∷ pm) = if Set.member g.strings u us then used_all us pm else false

  -- Each uuid has a value, those to come are not in use, and results are kept under uuids in use.
  pub record IsGood (h : Heap A) : Type 0 where
    pub known : All (Known g alike Fits h) h.any_keys
    pub fresh : (n : ℕ) → h.uuids ≤ n → Set.member g.strings (g.uuid n) h.any_keys ≡ false
    pub results : (p : ℕ) → All (λ pm. used_all h.any_keys pm ≡ true) (Map.keys (h.results p))

  -- Uuids are added; results stay.
  pub record Grows (h h' : Heap A) : Type 0 where
    pub keeps :
        (x : AnyField A) (u : String) → table g alike h x ≡ some u → table g alike h' x ≡ some u
    pub used :
        (u : String)
        → Set.member g.strings u h.any_keys ≡ true
        → Set.member g.strings u h'.any_keys ≡ true
    pub new :
        (x : AnyField A) (u : String)
        → table g alike h x ≡ none
        → table g alike h' x ≡ some u
        → Set.member g.strings u h.any_keys ≡ false
    pub results : h'.results ≡ h.results

  pub Grows-refl : (h : Heap A) → Grows h h
  Grows-refl h = record { keeps = λ x u t. t; used = λ u m. m; new = λ x u n t. cc; results = refl }

  pub Grows-trans : (h i j : Heap A) → Grows h i → Grows i j → Grows h j
  Grows-trans h i j a b = record {
    keeps = λ x u t. b.keeps x u (a.keeps x u t);
    used = λ u m. b.used u (a.used u m);
    new = λ x u n t. elim (Option-cases (table g alike i x)) [
      | inr (v, e) ↦ ground (arith, a.new x v n e, b.keeps x v e)
      | inl e ↦ ground (arith, b.new x u e t, a.used u)
    ];
    results = b.results ∙ a.results;
  }

  -- The input has a value that can be compared.
  abbrev pub Valued : ModuleInput A → Type 0
  Valued i = (has i.value ≡ true) × Fits i.value

  module _ (e : IsEquality g.eq alike Fits) (unique : NeverTwice g.strings g.uuid) where
    -- The heap after a new uuid for a value.
    abbrev pub assigned : AnyField A → Heap A → Heap A
    assigned x h = stored g alike x (g.uuid h.uuids) (record h { uuids = suc h.uuids })

    used_all-grows :
        (us vs : List String) (pm : ProxyMap String)
        → ((u : String) → Set.member g.strings u us ≡ true → Set.member g.strings u vs ≡ true)
        → used_all us pm ≡ true
        → used_all vs pm ≡ true
    used_all-grows us vs [] f h = refl
    used_all-grows us vs ((k, u) ∷ pm) f h = ground (arith, f u, used_all-grows us vs pm f)

    All-map :
        {T : Type 0} (P Q : T → Type 0)
        → ((t : T) → P t → Q t)
        → (ts : List T) → All P ts
        → All Q ts
    All-map P Q f [] h = tt
    All-map P Q f (t ∷ ts) (p, h) = (f t p, All-map P Q f ts h)

    stored-Known :
        (h : Heap A) (x : AnyField A) (u : String) (us : List String)
        → Set.member g.strings u us ≡ false
        → All (Known g alike Fits h) us
        → All (Known g alike Fits (stored g alike x u h)) us
    unfolding Set.member
    stored-Known h x u [] m all = tt
    stored-Known h x u (j ∷ us) m ((y, f, fy), all) = (
      (
        y,
        ground (arith, Map.find-assign g.strings u j x h.any_values, same_comm g.strings u j),
        fy,
      ),
      stored-Known h x u us (ground arith) all,
    )

    module _ (h : Heap A) (x : AnyField A) (good : IsGood h) (fx : Fits x)
        (n : table g alike h x ≡ none) where
      table-assigned :
          (z : AnyField A)
          → table g alike (assigned x h) z
            ≡ (if alike x z then some (g.uuid h.uuids) else table g alike h z)
      table-assigned z =
          table-stored g alike Fits e (record h { uuids = suc h.uuids }) x z (g.uuid h.uuids)
            good.known (good.fresh h.uuids (omega arith)) n

      assigned-Grows : Grows h (assigned x h)
      assigned-Grows = record {
        keeps = λ z u t. ground (arith, table-assigned z, table_congr g alike Fits e h x z);
        used = λ u m. ground (arith, Set.member-insert g.strings (g.uuid h.uuids) u h.any_keys);
        new = λ z u t t'. ground (arith, table-assigned z, good.fresh h.uuids);
        results = refl;
      }

      assigned-IsGood : IsGood (assigned x h)
      assigned-IsGood = record {
        known =
            Set.insert-All g.strings _ (g.uuid h.uuids) h.any_keys
              (
                x,
                ground (
                  arith,
                  Map.find-assign g.strings (g.uuid h.uuids) (g.uuid h.uuids) x h.any_values,
                  same_refl g.strings (g.uuid h.uuids),
                ),
                fx,
              )
              (stored-Known (record h { uuids = suc h.uuids }) x (g.uuid h.uuids) h.any_keys
                (good.fresh h.uuids (omega arith)) good.known);
        fresh = λ m lt. ground (
          arith,
          Set.member-insert g.strings (g.uuid h.uuids) (g.uuid m) h.any_keys,
          unique h.uuids m,
          good.fresh m,
        );
        results = λ p.
            All-map _ _
              (λ pm. used_all-grows h.any_keys (assigned x h).any_keys pm assigned-Grows.used)
              (Map.keys (h.results p)) (good.results p);
      }

    module _ (h : Heap A) (i : ModuleInput A) (good : IsGood h) (v : Valued i) where
      pub uuid_count-table : uuid_count (input2uuid g) h i ≡ ok (has (table g alike h i.value))
      unfolding uuid_count type_eraser input_any
      uuid_count-table = elim (Option-cases i.value) [
        | inl n ↦ absurd (ground arith)
        | inr (f, n) ↦ ground (arith, any2uuid-count g alike Fits e h i.value v.1 good.known)
      ]

      pub uuid_at-table :
          (u : String) → table g alike h i.value ≡ some u → at_get (input2uuid g) h i ≡ ok u
      unfolding at_get type_eraser input_any
      uuid_at-table u t = elim (Option-cases i.value) [
        | inl n ↦ absurd (ground arith)
        | inr (f, n) ↦ ground (
          arith,
          any2uuid-count g alike Fits e h i.value v.1 good.known,
          any2uuid-at_get g alike Fits e h i.value u v.1 good.known t,
        )
      ]

      -- UUIDMapper::insert gives a value a uuid that lasts, whether it had one or not.
      pub uuid_insert-Grows :
          (h' : Heap A) × (uuid_insert (input2uuid g) (next_uuid g.uuid) i h ≡ (ok tt, h'))
          × IsGood h'
          × Grows h h'
          × (has (table g alike h' i.value) ≡ true)
      unfolding uuid_insert type_eraser input_any
      uuid_insert-Grows = elim (Option-cases (table g alike h i.value)) [
        | inr (u, t) ↦ (h, ground (arith, uuid_count-table), good, Grows-refl h, ground arith)
        | inl t ↦ elim (Option-cases i.value) [
          | inl n ↦ absurd (ground arith)
          | inr (f, n) ↦ (
            assigned i.value h,
            ground (
              arith,
              uuid_count-table,
              any2uuid-insert g alike Fits e (record h { uuids = suc h.uuids }) i.value
                  (g.uuid h.uuids),
            ),
            assigned-IsGood h i.value good v.1 t,
            assigned-Grows h i.value good v.1 t,
            ground (arith, table-assigned h i.value good v.1 t i.value, e.reflexive i.value),
          )
        ]
      ]
