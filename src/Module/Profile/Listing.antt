-- ===== src/Module/Profile/Listing.antt =====
-- The text of profile_info as a listing of lines that the levels of submodules indent.
use text.Mathlib.TextLemmas.{append_assoc}
use mathlib.Core.List.{map-append}
use plugin_play.Base.{
  ℕ, zero, suc, String, concat, ◌≡◌, ◌⊎◌, refl, ap, ◌∙◌, List, [], ◌∷◌, ◌++◌, map, All, some,
  Option-cases, inl, inr,
}
use plugin_play.Base.Map.{keys}
use plugin_play.Base.Result.{
  Result, Error, ok, err, overflow, fault, runtime_error, or_throw, ◌>>=◌, Result-cases,
}
use plugin_play.Module.{Module, SubmoduleMap, Store, deref}
use plugin_play.Module.Profile.{profile_submods, profile_info}
use plugin_play.Module.Profile.Lines.{
  IsLine, unlines, concat-IsLine, all-map, all-append, map-concat, map-empty, unlines-append,
  entry_text,
}

-- All lines further to the right.
abbrev shift : String → Result (List String) → Result (List String)
shift i lines = lines >>= λ ls. ok (map (concat i) ls)

-- The text has these lines, or both calls throw the same.
abbrev Tells : Result String → Result (List String) → Type 0
Tells p q =
    ((lines : List String) × (q ≡ ok lines) × (p ≡ ok (unlines lines)) × All IsLine lines)
    ⊎ ((e : Error) × (q ≡ err e) × (p ≡ err e))

module _ {A : Type 0} where
  -- The lines below a module, where `go` is those of a module with an indent.
  abbrev pub below :
      (ℕ → String → Result (List String)) → SubmoduleMap A → String → Result (List String)
  below go [] indent = ok []
  below go ((key, r) ∷ submods) indent = do
    b ← or_throw r.module_ptr (runtime_error "Submodule is not ready")
    inner ← go b (concat indent "    ")
    rest ← below go submods indent
    ok (concat indent (concat "  " key) ∷ inner ++ rest)

  -- A module's own lines, then each submodule's key and its lines, further to the right.
  unfoldable pub listing :
      {C : Type 0} → (ℕ → List String) → ℕ → Store A C → ℕ → String → Result (List String)
  listing times zero st a indent = err overflow
  listing times (suc n) st a indent = do
    m ← deref st a
    rest ← below (λ b deeper. listing times n st b deeper) m.submods indent
    ok (map (concat indent) (times a) ++ rest)

  below-shift :
      (go : ℕ → String → Result (List String)) (submods : SubmoduleMap A) (i j : String)
      → ((b : ℕ) (k : String) → go b (concat i k) ≡ shift i (go b k))
      → below go submods (concat i j) ≡ shift i (below go submods j)
  below-shift go [] i j h = refl
  below-shift go ((key, r) ∷ submods) i j h = elim (Option-cases r.module_ptr) [
    | inl e ↦ rw (e) refl
    | inr (b, e) ↦
        let deeper : go b (concat (concat i j) "    ") ≡ shift i (go b (concat j "    ")) =
          ap (go b) (append_assoc i j "    ") ∙ h b (concat j "    ") in
        elim (Result-cases (go b (concat j "    "))) [
          | inr (x, f) ↦ rw (e, deeper, f) refl
          | inl (inner, f) ↦ elim (Result-cases (below go submods j)) [
            | inr (x, g) ↦ rw (e, deeper, f, below-shift go submods i j h, g) refl
            | inl (rest, g) ↦
                rw
                  (
                    e,
                    deeper,
                    f,
                    below-shift go submods i j h,
                    g,
                    append_assoc i j (concat "  " key),
                    map-append (concat i) inner rest,
                  )
                  refl
          ]
        ]
  ]

  listing-shift :
      {C : Type 0} (times : ℕ → List String) (n : ℕ) (st : Store A C) (a : ℕ) (i j : String)
      → listing times n st a (concat i j) ≡ shift i (listing times n st a j)
  unfolding listing
  listing-shift times zero st a i j = refl
  listing-shift times (suc n) st a i j = elim (Option-cases (st.modules a)) [
    | inl e ↦ rw (e) refl
    | inr (m, e) ↦
        let go = λ (b : ℕ) (deeper : String). listing times n st b deeper in
        let shifted = below-shift go m.submods i j (λ b k. listing-shift times n st b i k) in
        elim (Result-cases (below go m.submods j)) [
          | inr (x, g) ↦ rw (e, shifted, g) refl
          | inl (rest, g) ↦
              rw
                (
                  e,
                  shifted,
                  g,
                  map-concat i j (times a),
                  map-append (concat i) (map (concat j) (times a)) rest,
                )
                refl
        ]
  ]

  -- The texts below a module, put together.
  profile_submods-below :
      (told : ℕ → Result String) (go : ℕ → String → Result (List String)) (submods : SubmoduleMap A)
      → ((b : ℕ) → Tells (told b) (go b ""))
      → ((b : ℕ) (i j : String) → go b (concat i j) ≡ shift i (go b j))
      → All IsLine (keys submods)
      → Tells (profile_submods told submods) (below go submods "")
  unfolding profile_submods
  profile_submods-below told go [] h deeper k = inl ([], refl, refl, tt)
  profile_submods-below told go ((key, r) ∷ submods) h deeper (k, ks) =
      elim (Option-cases r.module_ptr) [
        | inl e ↦ inr (runtime_error "Submodule is not ready", rw (e) refl, rw (e) refl)
        | inr (b, e) ↦
            let right : go b "    " ≡ shift "    " (go b "") = deeper b "    " "" in
            elim (h b) [
              | inr (x, f, g) ↦ inr (x, rw (e, right, f) refl, rw (e, g) refl)
              | inl (lines, f, g, fine) ↦ elim (profile_submods-below told go submods h deeper ks) [
                | inr (x, i, j) ↦ inr (x, rw (e, right, f, i) refl, rw (e, g, j) refl)
                | inl (rest, i, j, good) ↦
                    let inner = map (concat "    ") lines in
                    let here = concat "" (concat "  " key) in
                    inl (
                      here ∷ inner ++ rest,
                      rw (e, right, f, i) refl,
                      rw (e, g, j) (ap ok (entry_text key lines rest fine)),
                      (
                        concat-IsLine "" (concat "  " key) tt
                            (concat-IsLine "  " key (refl, (refl, tt)) k),
                        all-append inner rest
                            (all-map "    " lines (refl, (refl, (refl, (refl, tt)))) fine) good,
                      ),
                    )
              ]
            ]
      ]

  profile_info-Tells :
      {C : Type 0} (timer : ℕ → String) (times : ℕ → List String) (st : Store A C)
      → ((a : ℕ) → (timer a ≡ unlines (times a)) × All IsLine (times a))
      → ((a : ℕ) (m : Module A) → st.modules a ≡ some m → All IsLine (keys m.submods))
      → (n a : ℕ) → Tells (profile_info timer n st a) (listing times n st a "")
  unfolding profile_info listing
  profile_info-Tells timer times st h k zero a = inr (overflow, refl, refl)
  profile_info-Tells timer times st h k (suc n) a = elim (Option-cases (st.modules a)) [
    | inl e ↦ inr (fault, rw (e) refl, rw (e) refl)
    | inr (m, e) ↦
        elim (profile_submods-below (λ b. profile_info timer n st b)
          (λ b deeper. listing times n st b deeper) m.submods
          (λ b. profile_info-Tells timer times st h k n b) (λ b i j. listing-shift times n st b i j)
          (k a m e)) [
            | inr (x, f, g) ↦ inr (x, rw (e, f) refl, rw (e, g) refl)
            | inl (rest, f, g, good) ↦ inl (
              times a ++ rest,
              rw (e, f, map-empty (times a)) refl,
              rw (e, g, (h a).0, unlines-append (times a) rest) refl,
              all-append (times a) rest (h a).1 good,
            )
          ]
  ]

  -- Where each timer prints whole lines, and no key of a submodule has a line break: the text of
  -- profile_info is the lines of the module's timer, then for each submodule in the order of the
  -- keys its key and its own lines, each level four more spaces to the right; and it throws what
  -- reading these lines throws, as for a request without a module.
  pub profile_info-listing :
      {C : Type 0} (timer : ℕ → String) (times : ℕ → List String) (st : Store A C)
      → ((a : ℕ) → (timer a ≡ unlines (times a)) × All IsLine (times a))
      → ((a : ℕ) (m : Module A) → st.modules a ≡ some m → All IsLine (keys m.submods))
      → (n a : ℕ)
      → profile_info timer n st a ≡ (listing times n st a "" >>= λ lines. ok (unlines lines))
  profile_info-listing timer times st h k n a = elim (profile_info-Tells timer times st h k n a) [
    | inl (lines, f, g, good) ↦ rw (f, g) refl
    | inr (x, f, g) ↦ rw (f, g) refl
  ]
