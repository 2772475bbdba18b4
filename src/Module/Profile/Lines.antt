-- ===== src/Module/Profile/Lines.antt =====
-- Texts as lists of lines, and what profile_info's loop over the lines makes of them.
use Prim.Native.String.{char_at}
use text.Mathlib.TextLemmas.{append_assoc, nil-append, cons-append}
use plugin_play.Base.{
  String, concat, false, ◌≡◌, subst, refl, ap, sym, ◌∙◌, List, [], ◌∷◌, ◌++◌, map, All,
}
use plugin_play.Module.Profile.{is_break, tab, getlines, indented}

-- A text without a line break.
abbrev pub IsLine : String → Type 0
IsLine String.[] = Unit
IsLine (String.◌∷◌ c s) = (is_break c ≡ false) × IsLine s

abbrev pub unlines : List String → String
unlines [] = ""
unlines (l ∷ lines) = concat l (concat "\n" (unlines lines))

break-append : (s : String) → concat "\n" s ≡ String.◌∷◌ (char_at "\n" 0) s
break-append s =
    cons-append (char_at "\n" 0) "" s ∙ ap (λ t. String.◌∷◌ (char_at "\n" 0) t) (nil-append s)

getlines-line : (l s : String) → IsLine l → getlines (concat l (concat "\n" s)) ≡ l ∷ getlines s
unfolding getlines
getlines-line String.[] s h = ap getlines (nil-append (concat "\n" s) ∙ break-append s)
getlines-line (String.◌∷◌ c l) s (h, hs) =
    ap getlines (cons-append c l (concat "\n" s)) ∙ rw (h, getlines-line l s hs) refl

getlines-unlines : (lines : List String) → All IsLine lines → getlines (unlines lines) ≡ lines
unfolding getlines
getlines-unlines [] h = refl
getlines-unlines (l ∷ lines) (h, hs) =
    getlines-line l (unlines lines) h ∙ ap (l ∷◌) (getlines-unlines lines hs)

pub unlines-append : (xs ys : List String) → unlines (xs ++ ys) ≡ concat (unlines xs) (unlines ys)
unlines-append [] ys = sym (nil-append (unlines ys))
unlines-append (x ∷ xs) ys = cc (
  unlines-append xs ys,
  append_assoc x (concat "\n" (unlines xs)) (unlines ys),
  append_assoc "\n" (unlines xs) (unlines ys),
)

indented-unlines : (lines : List String) → indented lines ≡ unlines (map (concat "    ") lines)
unfolding indented
indented-unlines [] = refl
indented-unlines (l ∷ lines) =
    let deeper = concat l (concat "\n" (unlines (map (concat "    ") lines))) in
    let left : indented (l ∷ lines) ≡ concat tab (concat tab deeper) =
      simp (append_assoc, indented-unlines lines) in
    left
    ∙ sym (append_assoc tab tab deeper)
    ∙ sym (append_assoc "    " l (concat "\n" (unlines (map (concat "    ") lines))))

pub concat-IsLine : (s t : String) → IsLine s → IsLine t → IsLine (concat s t)
concat-IsLine String.[] t h k = subst IsLine (sym (nil-append t)) k
concat-IsLine (String.◌∷◌ c s) t (h, hs) k =
    subst IsLine (sym (cons-append c s t)) (h, concat-IsLine s t hs k)

pub all-map :
    (indent : String) (lines : List String)
    → IsLine indent
    → All IsLine lines
    → All IsLine (map (concat indent) lines)
all-map indent [] h k = tt
all-map indent (l ∷ lines) h (k, ks) = (concat-IsLine indent l h k, all-map indent lines h ks)

pub all-append : (xs ys : List String) → All IsLine xs → All IsLine ys → All IsLine (xs ++ ys)
all-append [] ys h k = k
all-append (x ∷ xs) ys (h, hs) k = (h, all-append xs ys hs k)

pub map-concat :
    (i j : String) (lines : List String)
    → map (concat (concat i j)) lines ≡ map (concat i) (map (concat j) lines)
map-concat i j [] = refl
map-concat i j (l ∷ lines) = cc (append_assoc i j l, map-concat i j lines)

pub map-empty : (lines : List String) → map (concat "") lines ≡ lines
map-empty [] = refl
map-empty (l ∷ lines) = cc (nil-append l, map-empty lines)

-- The text that a submodule adds.
pub entry_text :
    (key : String) (lines rest : List String)
    → All IsLine lines
    → concat
        (concat tab (concat key "\n"))
        (concat (indented (getlines (unlines lines))) (unlines rest))
      ≡ unlines (concat "" (concat "  " key) ∷ map (concat "    ") lines ++ rest)
entry_text key lines rest h =
    let inner = map (concat "    ") lines in
    rw
      (
        getlines-unlines lines h,
        indented-unlines lines,
        unlines-append inner rest,
        nil-append (concat "  " key),
      )
      (simp append_assoc)
