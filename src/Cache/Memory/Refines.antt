-- ===== src/Cache/Memory/Refines.antt =====
-- A module cache in memory is a map from inputs to results.
use plugin_play.Base.{
  ℕ, String, Bool, true, false, ◌&&◌, ◌≡◌, refl, sym, ap, subst, ◌∙◌, Option, none, some, has, [],
  ◌∷◌, arith, All, Option-cases, Bool-cases, inl, inr, if◌then◌else◌, ◌==◌, ==-refl,
}
use plugin_play.Base.Order.{same, same_refl}
use plugin_play.Base.Map
use plugin_play.Base.Map.{Map}
use plugin_play.Base.Result.{ok}
use plugin_play.Any.{AnyField}
use plugin_play.Module.{InputMap, ResultMap}
use plugin_play.Cache.Database.{at_get}
use plugin_play.Cache.Transposer.{transposer}
use plugin_play.Cache.ProxyMapMaker.{ProxyMap, insert_all}
use plugin_play.Cache.Memory.{Heap, Setting, input2uuid, next_uuid, module_db, put_at}
use plugin_play.Cache.Memory.Table.{IsEquality, look-member}
use plugin_play.Cache.Memory.Growth.{IsGood, Grows, NeverTwice, used_all}
use plugin_play.Cache.Memory.Proxies.{
  proxied, alike_inputs, IsSorted, AllValued, count_all-proxied, at_all-proxied, proxied-Grows,
  insert_all-Grows, proxied_new, proxied-cons, proxied_injective, proxied_congr,
}

injective : {T : Type 0} {a b : T} → some a ≡ some b → a ≡ b
injective h = cc

module _ {A : Type 0} (g : Setting A) (alike : AnyField A → AnyField A → Bool) where
  -- What the cache at `p` holds for some inputs.
  abbrev pub view : ℕ → Heap A → InputMap A → Option (ResultMap A)
  view p h ps = elim (proxied g alike h ps) [
    | none ↦ none
    | some pm ↦ Map.find g.pms pm (h.results p)
  ]

  module _ (Fits : AnyField A → Type 0) (e : IsEquality g.eq alike Fits)
      (unique : NeverTwice g.strings g.uuid)
      (exact : (a b : ProxyMap String) → same g.pms a b ≡ true → a ≡ b) where
    pub module_db-count :
        (p : ℕ) (h : Heap A) (ps : InputMap A)
        → IsGood g alike Fits h
        → AllValued g alike Fits ps
        → IsSorted g alike ps
        → (module_db g p).count h ps ≡ ok (has (view p h ps))
    unfolding module_db
    module_db-count p h ps good v sorted = elim (Option-cases (proxied g alike h ps)) [
      | inl n ↦ ground (arith, count_all-proxied g alike Fits e unique h ps good v)
      | inr (pm, t) ↦ ground (
        arith,
        count_all-proxied g alike Fits e unique h ps good v,
        at_all-proxied g alike Fits e unique h ps pm good v sorted t,
      )
    ]

    pub module_db-at_get :
        (p : ℕ) (h : Heap A) (ps : InputMap A) (rv : ResultMap A)
        → IsGood g alike Fits h
        → AllValued g alike Fits ps
        → IsSorted g alike ps
        → view p h ps ≡ some rv
        → at_get (module_db g p) h ps ≡ ok rv
    unfolding module_db at_get
    module_db-at_get p h ps rv good v sorted t = elim (Option-cases (proxied g alike h ps)) [
      | inl n ↦ absurd (ground arith)
      | inr (pm, s) ↦ ground (
        arith,
        count_all-proxied g alike Fits e unique h ps good v,
        at_all-proxied g alike Fits e unique h ps pm good v sorted s,
      )
    ]

    proxied-used :
        (h : Heap A) (ps : InputMap A) (pm : ProxyMap String)
        → proxied g alike h ps ≡ some pm
        → used_all g alike Fits h.any_keys pm ≡ true
    proxied-used h [] pm t = ground arith
    proxied-used h ((k, i) ∷ ps) pm t =
        let (u, rest, a, r, f) = proxied-cons g alike Fits e unique h k i ps pm t in
        subst (λ x. used_all g alike Fits h.any_keys x ≡ true) f
          (ground
            (arith, look-member g alike Fits e h i.value u h.any_keys a, proxied-used h ps rest r))

    -- The heap after the rest of an insertion, once every value has a uuid.
    abbrev kept : ℕ → InputMap A → ProxyMap String → ResultMap A → Heap A → Heap A
    kept p ps pm rv h = record h {
      inputs = put_at p (Map.emplace g.pms pm ps (h.inputs p)) h.inputs;
      results = put_at p (Map.assign g.pms pm rv (h.results p)) h.results;
    }

    module_db-insert :
        (p : ℕ) (h h1 : Heap A) (ps : InputMap A) (pm : ProxyMap String) (rv : ResultMap A)
        → insert_all g.cim (input2uuid g) (next_uuid g.uuid) ps h ≡ (ok tt, h1)
        → IsGood g alike Fits h1
        → AllValued g alike Fits ps
        → IsSorted g alike ps
        → proxied g alike h1 ps ≡ some pm
        → (module_db g p).insert ps rv h ≡ (ok tt, kept p ps pm rv h1)
    unfolding module_db
    module_db-insert p h h1 ps pm rv run good v sorted t =
        let h2 = record h1 {
          inputs = put_at p (Map.emplace g.pms pm ps (h1.inputs p)) h1.inputs;
        } in
        let good2 : IsGood g alike Fits h2 = record {
          known = good.known;
          fresh = good.fresh;
          results = good.results;
        } in
        ground (
          arith,
          run,
          at_all-proxied g alike Fits e unique h1 ps pm good v sorted t,
          at_all-proxied g alike Fits e unique h2 ps pm good2 v sorted t,
          ==-refl p,
        )

    kept-IsGood :
        (p : ℕ) (h : Heap A) (ps : InputMap A) (pm : ProxyMap String) (rv : ResultMap A)
        → IsGood g alike Fits h
        → proxied g alike h ps ≡ some pm
        → IsGood g alike Fits (kept p ps pm rv h)
    kept-IsGood p h ps pm rv good t =
        let P = λ (m : ProxyMap String). used_all g alike Fits h.any_keys m ≡ true in
        record {
          known = good.known;
          fresh = good.fresh;
          results = λ q.
              elim (p == q)
                as (λ b.
                  All P
                    (Map.keys (if b then Map.assign g.pms pm rv (h.results p) else h.results q))) [
                      | true ↦
                          Map.assign-AllKeys g.pms P pm rv (h.results p) (proxied-used h ps pm t)
                            (good.results p)
                      | false ↦ good.results q
                    ];
        }

    -- Inputs that have only now got all their uuids have no results.
    view-new :
        (p : ℕ) (h h1 : Heap A) (qs : InputMap A) (qm : ProxyMap String)
        → IsGood g alike Fits h
        → Grows g alike Fits h h1
        → proxied g alike h1 qs ≡ some qm
        → view p h qs ≡ Map.find g.pms qm (h.results p)
    view-new p h h1 qs qm good grows t = elim (Option-cases (proxied g alike h qs)) [
      | inr (pm, s) ↦ ground (arith, proxied-Grows g alike Fits e unique h h1 qs pm grows s)
      | inl n ↦ elim (Option-cases (Map.find g.pms qm (h.results p))) [
        | inl f ↦ ground arith
        | inr (rv, f) ↦
            let P = λ (m : ProxyMap String). used_all g alike Fits h.any_keys m ≡ true in
            let used =
              Map.find-AllKeys g.pms P qm rv (h.results p) (λ j s. subst P (exact j qm s))
                (good.results p) f in
            absurd (ground (arith, used, proxied_new g alike Fits e unique h h1 qs qm grows n t))
      ]
    ]

    view-kept :
        (p : ℕ) (h h1 : Heap A) (ps qs : InputMap A) (pm : ProxyMap String) (rv : ResultMap A)
        → IsGood g alike Fits h
        → Grows g alike Fits h h1
        → proxied g alike h1 ps ≡ some pm
        → view p (kept p ps pm rv h1) qs
          ≡ (if alike_inputs g alike ps qs then some rv else view p h qs)
    view-kept p h h1 ps qs pm rv good grows t = elim (Option-cases (proxied g alike h1 qs)) [
      | inl n ↦ elim (Option-cases (proxied g alike h qs)) [
        | inl m ↦ ground (arith, proxied_congr g alike Fits e unique h1 ps qs)
        | inr (qm, m) ↦
            absurd (ground (arith, proxied-Grows g alike Fits e unique h h1 qs qm grows m))
      ]
      | inr (qm, s) ↦
          let stored = Map.find-assign g.pms pm qm rv (h1.results p) in
          let old = view-new p h h1 qs qm good grows s in
          elim (Bool-cases (alike_inputs g alike ps qs)) [
            | inl a ↦
                let one : pm ≡ qm =
                  injective (sym t ∙ proxied_congr g alike Fits e unique h1 ps qs a ∙ s) in
                ground (
                  arith,
                  stored,
                  ==-refl p,
                  subst (λ x. same g.pms pm x ≡ true) one (same_refl g.pms pm),
                )
            | inr a ↦ elim (Bool-cases (same g.pms pm qm)) [
              | inl m ↦
                  let one : pm ≡ qm = exact pm qm m in
                  absurd (
                    ground (
                      arith,
                      proxied_injective g alike Fits e unique h1 ps qs pm t
                          (s ∙ ap (λ x. some x) (sym one)),
                    ))
              | inr m ↦ ground (arith, stored, ==-refl p, old, ap (λ r. r p) grows.results)
            ]
          ]
    ]

    view-other :
        (p q : ℕ) (h h1 : Heap A) (ps qs : InputMap A) (pm : ProxyMap String) (rv : ResultMap A)
        → (p == q) ≡ false
        → IsGood g alike Fits h
        → Grows g alike Fits h h1
        → view q (kept p ps pm rv h1) qs ≡ view q h qs
    view-other p q h h1 ps qs pm rv ne good grows = elim (Option-cases (proxied g alike h1 qs)) [
      | inl n ↦ elim (Option-cases (proxied g alike h qs)) [
        | inl m ↦ ground arith
        | inr (qm, m) ↦
            absurd (ground (arith, proxied-Grows g alike Fits e unique h h1 qs qm grows m))
      ]
      | inr (qm, s) ↦
          ground (arith, view-new q h h1 qs qm good grows s, ap (λ r. r q) grows.results)
    ]

    view-at :
        (p q : ℕ) (h h1 : Heap A) (ps qs : InputMap A) (pm : ProxyMap String) (rv : ResultMap A)
        → IsGood g alike Fits h
        → Grows g alike Fits h h1
        → proxied g alike h1 ps ≡ some pm
        → view q (kept p ps pm rv h1) qs
          ≡ (if (p == q) && alike_inputs g alike ps qs then some rv else view q h qs)
    view-at p q h h1 ps qs pm rv good grows t = elim (Bool-cases (p == q)) [
      | inr ne ↦ ground (arith, view-other p q h h1 ps qs pm rv ne good grows)
      | inl eq ↦
          let here : p ≡ q = ground arith in
          ground (arith, view-kept q h h1 ps qs pm rv good grows t, here)
    ]

    -- Insertion into the cache at `p`
    pub module_db-insert-view :
        (p q : ℕ) (h : Heap A) (ps qs : InputMap A) (rv : ResultMap A)
        → IsGood g alike Fits h
        → AllValued g alike Fits ps
        → IsSorted g alike ps
        → (h' : Heap A) × ((module_db g p).insert ps rv h ≡ (ok tt, h'))
          × IsGood g alike Fits h'
          × (view q h' qs
              ≡ (if (p == q) && alike_inputs g alike ps qs then some rv else view q h qs))
    module_db-insert-view p q h ps qs rv good v sorted =
        let (h1, run, good1, grows, there) = insert_all-Grows g alike Fits e unique h ps good v in
        elim (Option-cases (proxied g alike h1 ps)) [
          | inl n ↦ absurd (ground arith)
          | inr (pm, t) ↦ (
            kept p ps pm rv h1,
            module_db-insert p h h1 ps pm rv run good1 v sorted t,
            kept-IsGood p h1 ps pm rv good1 t,
            view-at p q h h1 ps qs pm rv good grows t,
          )
        ]

    -- The cache at `p` is emptied; the uuids stay.
    abbrev emptied : ℕ → Heap A → Heap A
    emptied p h = record h { results = put_at p [] h.results }

    pub module_db-dump : (p : ℕ) (h : Heap A) → (module_db g p).dump h ≡ (ok tt, emptied p h)
    unfolding module_db transposer
    module_db-dump p h = refl

    pub emptied-IsGood :
        (p : ℕ) (h : Heap A) → IsGood g alike Fits h → IsGood g alike Fits (emptied p h)
    emptied-IsGood p h good =
        let P = λ (m : ProxyMap String). used_all g alike Fits h.any_keys m ≡ true in
        record {
          known = good.known;
          fresh = good.fresh;
          results = λ q. elim (p == q) as (λ b. All P (Map.keys (if b then [] else h.results q))) [
            | true ↦ tt
            | false ↦ good.results q
          ];
        }

    pub view-emptied :
        (p q : ℕ) (h : Heap A) (qs : InputMap A)
        → view q (emptied p h) qs ≡ (if p == q then none else view q h qs)
    unfolding Map.find
    view-emptied p q h qs = elim (Option-cases (proxied g alike h qs)) [
      | inl n ↦ ground arith
      | inr (qm, t) ↦ ground arith
    ]
