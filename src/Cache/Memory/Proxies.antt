-- ===== src/Cache/Memory/Proxies.antt =====
-- The maps of uuids that stand for maps of inputs.
use plugin_play.Base.{
  String, Bool, true, false, ◌&&◌, ◌≡◌, refl, sym, ap, ◌∙◌, Option, none, some, has, [], ◌∷◌, ◌++◌,
  arith, All, Option-cases, inl, inr, str_eq, eq_iff,
}
use plugin_play.Base.Order.{same}
use plugin_play.Base.Map
use plugin_play.Base.Map.{Map, AllValues, AllValues-map}
use plugin_play.Base.Result.{ok}
use plugin_play.Any.{AnyField}
use plugin_play.Fields.ModuleInput.{ModuleInput}
use plugin_play.Module.{InputMap}
use plugin_play.Cache.Database.{at_get}
use plugin_play.Cache.ProxyMapMaker.{ProxyMap, count_all, insert_all, at_all}
use plugin_play.Cache.Memory.{Heap, Setting, input2uuid, next_uuid}
use plugin_play.Cache.Memory.Table.{IsEquality, table, table_injective, table_congr}
use plugin_play.Cache.Memory.Growth.{
  IsGood, Grows, Grows-refl, Grows-trans, NeverTwice, Valued, uuid_count-table, uuid_at-table,
  uuid_insert-Grows, used_all,
}

module _ {A : Type 0} (g : Setting A) (alike : AnyField A → AnyField A → Bool) where
  -- The map of the uuids of a map's values, if all of them have one.
  abbrev pub proxied : Heap A → InputMap A → Option (ProxyMap String)
  proxied h [] = some []
  proxied h ((k, i) ∷ ps) = elim (table g alike h i.value) [
    | none ↦ none
    | some u ↦ elim (proxied h ps) [ none ↦ none | some pm ↦ some ((k, u) ∷ pm) ]
  ]

  -- The maps have the same keys, with values that are alike.
  abbrev pub alike_inputs : InputMap A → InputMap A → Bool
  alike_inputs [] [] = true
  alike_inputs ((k, i) ∷ ps) ((j, l) ∷ qs) =
      str_eq k j && (alike i.value l.value && alike_inputs ps qs)
  alike_inputs _ _ = false

  -- The keys are in the order of the map.
  abbrev pub IsSorted : InputMap A → Type 0
  IsSorted [] = Unit
  IsSorted ((k, i) ∷ ps) = All (λ j. g.cim.less k j ≡ true) (Map.keys ps) × IsSorted ps

  -- Every key of the first map comes before those of the second.
  abbrev Before : ProxyMap String → InputMap A → Type 0
  Before rv ps = All (λ j. All (λ k. g.cim.less j k ≡ true) (Map.keys ps)) (Map.keys rv)

  Before-tail :
      (k : String) (i : ModuleInput A) (ps : InputMap A) (rv : ProxyMap String)
      → Before rv ((k, i) ∷ ps)
      → Before rv ps
  Before-tail k i ps [] h = tt
  Before-tail k i ps ((j, u) ∷ rv) ((b, h), rest) = (h, Before-tail k i ps rv rest)

  Before-snoc :
      (k u : String) (ps : InputMap A) (rv : ProxyMap String)
      → All (λ j. g.cim.less k j ≡ true) (Map.keys ps)
      → Before rv ps
      → Before (rv ++ ((k, u) ∷ [])) ps
  Before-snoc k u ps [] b h = (b, tt)
  Before-snoc k u ps ((j, v) ∷ rv) b (h, rest) = (h, Before-snoc k u ps rv b rest)

  place_last :
      (k u : String) (i : ModuleInput A) (ps : InputMap A) (rv : ProxyMap String)
      → Before rv ((k, i) ∷ ps)
      → (Map.find g.cim k rv ≡ none) × (Map.place g.cim k u rv ≡ rv ++ ((k, u) ∷ []))
  unfolding Map.find Map.place same
  place_last k u i ps [] h = (refl, refl)
  place_last k u i ps ((j, v) ∷ rv) ((b, h), rest) =
      let (absent, last) = place_last k u i ps rv rest in
      let not_back : g.cim.less k j ≡ false =
        ground (arith, g.cim.transitive j k j, g.cim.irreflexive j) in
      (ground arith, ground arith)

  emplace_last :
      (k u : String) (i : ModuleInput A) (ps : InputMap A) (rv : ProxyMap String)
      → Before rv ((k, i) ∷ ps)
      → Map.emplace g.cim k u rv ≡ rv ++ ((k, u) ∷ [])
  unfolding Map.emplace
  emplace_last k u i ps rv h =
      ground (arith, (place_last k u i ps rv h).0, (place_last k u i ps rv h).1)

  snoc-append :
      (e : String × String) (rv pm : ProxyMap String) → (rv ++ (e ∷ [])) ++ pm ≡ rv ++ (e ∷ pm)
  snoc-append e [] pm = refl
  snoc-append e (x ∷ rv) pm = ap (λ r. x ∷ r) (snoc-append e rv pm)

  append-nil : (rv : ProxyMap String) → rv ++ [] ≡ rv
  append-nil [] = refl
  append-nil (x ∷ rv) = ap (λ r. x ∷ r) (append-nil rv)

  module _ (Fits : AnyField A → Type 0) where
    abbrev pub AllValued : InputMap A → Type 0
    AllValued = AllValues (Valued g alike Fits)

  module _ (Fits : AnyField A → Type 0) (e : IsEquality g.eq alike Fits)
      (unique : NeverTwice g.strings g.uuid) where
    pub count_all-proxied :
        (h : Heap A) (ps : InputMap A)
        → IsGood g alike Fits h
        → AllValued Fits ps
        → count_all g.cim (input2uuid g) h ps ≡ ok (has (proxied h ps))
    unfolding count_all
    count_all-proxied h [] good v = refl
    count_all-proxied h ((k, i) ∷ ps) good (v, vs) =
        ground
          (arith, uuid_count-table g alike Fits e unique h i good v, count_all-proxied h ps good vs)

    at_all-cons :
        (h : Heap A) (k u : String) (i : ModuleInput A) (ps : InputMap A) (rv : ProxyMap String)
        → at_get (input2uuid g) h i ≡ ok u
        → at_all g.cim (input2uuid g) h ((k, i) ∷ ps) rv
          ≡ at_all g.cim (input2uuid g) h ps (Map.emplace g.cim k u rv)
    unfolding at_all at_get
    at_all-cons h k u i ps rv a = ground arith

    at_all-append :
        (h : Heap A) (ps : InputMap A) (rv pm : ProxyMap String)
        → IsGood g alike Fits h
        → AllValued Fits ps
        → IsSorted ps
        → Before rv ps
        → proxied h ps ≡ some pm
        → at_all g.cim (input2uuid g) h ps rv ≡ ok (rv ++ pm)
    unfolding at_all
    at_all-append h [] rv pm good v sorted b t = ground (arith, append-nil rv)
    at_all-append h ((k, i) ∷ ps) rv pm good (v, vs) (ahead, sorted) b t =
        elim (Option-cases (table g alike h i.value)) [
          | inl n ↦ absurd (ground arith)
          | inr (u, a) ↦ elim (Option-cases (proxied h ps)) [
            | inl n ↦ absurd (ground arith)
            | inr (rest, r) ↦ ground (
              arith,
              at_all-cons h k u i ps rv (uuid_at-table g alike Fits e unique h i good v u a),
              emplace_last k u i ps rv b,
              at_all-append h ps (rv ++ ((k, u) ∷ [])) rest good vs sorted
                  (Before-snoc k u ps rv ahead (Before-tail k i ps rv b)) r,
              snoc-append (k, u) rv rest,
            )
          ]
        ]

    -- ProxyMapMaker::at
    pub at_all-proxied :
        (h : Heap A) (ps : InputMap A) (pm : ProxyMap String)
        → IsGood g alike Fits h
        → AllValued Fits ps
        → IsSorted ps
        → proxied h ps ≡ some pm
        → at_all g.cim (input2uuid g) h ps [] ≡ ok pm
    at_all-proxied h ps pm good v sorted t = at_all-append h ps [] pm good v sorted tt t

    pub proxied-Grows :
        (h h' : Heap A) (ps : InputMap A) (pm : ProxyMap String)
        → Grows g alike Fits h h'
        → proxied h ps ≡ some pm
        → proxied h' ps ≡ some pm
    proxied-Grows h h' [] pm grows t = t
    proxied-Grows h h' ((k, i) ∷ ps) pm grows t = elim (Option-cases (table g alike h i.value)) [
      | inl n ↦ absurd (ground arith)
      | inr (u, a) ↦ elim (Option-cases (proxied h ps)) [
        | inl n ↦ absurd (ground arith)
        | inr (rest, r) ↦
            ground (arith, grows.keeps i.value u a, proxied-Grows h h' ps rest grows r)
      ]
    ]

    -- The loop of ProxyMapMaker::insert gives every value a uuid.
    pub insert_all-Grows :
        (h : Heap A) (ps : InputMap A)
        → IsGood g alike Fits h
        → AllValued Fits ps
        → (h' : Heap A) × (insert_all g.cim (input2uuid g) (next_uuid g.uuid) ps h ≡ (ok tt, h'))
          × IsGood g alike Fits h'
          × Grows g alike Fits h h'
          × (has (proxied h' ps) ≡ true)
    unfolding insert_all
    insert_all-Grows h [] good v = (h, refl, good, Grows-refl g alike Fits h, refl)
    insert_all-Grows h ((k, i) ∷ ps) good (v, vs) =
        let (h1, run1, good1, grows1, there1) =
          uuid_insert-Grows g alike Fits e unique h i good v in
        let (h2, run2, good2, grows2, there2) = insert_all-Grows h1 ps good1 vs in
        elim (Option-cases (table g alike h1 i.value)) [
          | inl n ↦ absurd (ground arith)
          | inr (u, a) ↦ (
            h2,
            ground arith,
            good2,
            Grows-trans g alike Fits h h1 h2 grows1 grows2,
            ground (arith, grows2.keeps i.value u a),
          )
        ]

    -- A map that has only now got all its uuids has one that was not in use.
    pub proxied_new :
        (h h' : Heap A) (ps : InputMap A) (pm : ProxyMap String)
        → Grows g alike Fits h h'
        → proxied h ps ≡ none
        → proxied h' ps ≡ some pm
        → used_all g alike Fits h.any_keys pm ≡ false
    proxied_new h h' [] pm grows n t = absurd (ground arith)
    proxied_new h h' ((k, i) ∷ ps) pm grows n t = elim (Option-cases (table g alike h' i.value)) [
      | inl m ↦ absurd (ground arith)
      | inr (u, a) ↦ elim (Option-cases (proxied h' ps)) [
        | inl m ↦ absurd (ground arith)
        | inr (rest, r) ↦ elim (Option-cases (table g alike h i.value)) [
          | inl m ↦ ground (arith, grows.new i.value u m a)
          | inr (w, m) ↦ ground (arith, proxied_new h h' ps rest grows (ground arith) r)
        ]
      ]
    ]

    pub proxied-cons :
        (h : Heap A) (k : String) (i : ModuleInput A) (ps : InputMap A) (pm : ProxyMap String)
        → proxied h ((k, i) ∷ ps) ≡ some pm
        → (u : String) × (rest : ProxyMap String) × (table g alike h i.value ≡ some u)
          × (proxied h ps ≡ some rest)
          × ((k, u) ∷ rest ≡ pm)
    proxied-cons h k i ps pm t = elim (Option-cases (table g alike h i.value)) [
      | inl n ↦ absurd (ground arith)
      | inr (u, a) ↦ elim (Option-cases (proxied h ps)) [
        | inl n ↦ absurd (ground arith)
        | inr (rest, r) ↦ (u, rest, a, r, ground arith)
      ]
    ]

    -- Maps with one map of uuids are alike.
    pub proxied_injective :
        (h : Heap A) (ps qs : InputMap A) (pm : ProxyMap String)
        → proxied h ps ≡ some pm
        → proxied h qs ≡ some pm
        → alike_inputs ps qs ≡ true
    proxied_injective h [] [] pm t r = refl
    proxied_injective h [] ((j, l) ∷ qs) pm t r =
        let (w, rest', b, r', f) = proxied-cons h j l qs pm r in absurd (ground arith)
    proxied_injective h ((k, i) ∷ ps) [] pm t r =
        let (u, rest, a, t', e) = proxied-cons h k i ps pm t in absurd (ground arith)
    proxied_injective h ((k, i) ∷ ps) ((j, l) ∷ qs) pm t r =
        let (u, rest, a, t', e1) = proxied-cons h k i ps pm t in
        let (w, rest', b, r', f1) = proxied-cons h j l qs pm r in
        let heads : k ≡ j = cc in
        let uuids : u ≡ w = cc in
        let rests : rest ≡ rest' = cc in
        ground (
          arith,
          (eq_iff k j).1 heads,
          table_injective g alike Fits e h i.value l.value u a (b ∙ ap (λ x. some x) (sym uuids)),
          proxied_injective h ps qs rest t' (r' ∙ ap (λ x. some x) (sym rests)),
        )

    -- Maps that are alike have one map of uuids.
    pub proxied_congr :
        (h : Heap A) (ps qs : InputMap A) → alike_inputs ps qs ≡ true → proxied h ps ≡ proxied h qs
    proxied_congr h [] [] a = refl
    proxied_congr h [] ((j, l) ∷ qs) a = ground arith
    proxied_congr h ((k, i) ∷ ps) [] a = ground arith
    proxied_congr h ((k, i) ∷ ps) ((j, l) ∷ qs) a =
        let heads : k ≡ j = (eq_iff k j).0 (ground arith) in
        let values : alike i.value l.value ≡ true = ground arith in
        let rests : alike_inputs ps qs ≡ true = ground arith in
        ground (
          arith,
          heads,
          table_congr g alike Fits e h i.value l.value values,
          proxied_congr h ps qs rests,
        )
