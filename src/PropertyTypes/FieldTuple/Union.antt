-- ===== src/PropertyTypes/FieldTuple/Union.antt =====
-- The fields of a tuple that is put together from others: their keys, types and order.
use plugin_play.Base.{
  String, Bool, true, false, ◌&&◌, ◌≡◌, refl, sym, ap, ◌∙◌, subst, List, [], ◌∷◌, ◌++◌, arith,
  str_eq, eq_iff, if◌then◌else◌, Bool-cases, inl, inr,
}
use plugin_play.Base.Result.{ok, >>=-eq-ok}
use plugin_play.Types.{Rtti}
use plugin_play.PropertyTypes.FieldTuple.{
  Element, Entry, FieldTuple, FieldType, count, add_field, set_default, adopt, union,
}

-- The keys and types of the fields.
abbrev pub signature : {E : Type 0} → FieldTuple E → List (String × FieldType)
signature [] = []
signature (f ∷ fs) = (f.key, f.type) ∷ signature fs

abbrev pub has_key : String → List (String × FieldType) → Bool
has_key k [] = false
has_key k ((j, t) ∷ s) = if str_eq j k then true else has_key k s

-- No key stands twice.
abbrev pub IsDistinct : List (String × FieldType) → Type 0
IsDistinct [] = Unit
IsDistinct ((k, t) ∷ s) = (has_key k s ≡ false) × IsDistinct s

has_key-append :
    (k j : String) (t : FieldType) (s : List (String × FieldType))
    → has_key k (s ++ ((j, t) ∷ [])) ≡ (if has_key k s then true else str_eq j k)
has_key-append k j t [] = ground arith
has_key-append k j t ((i, u) ∷ s) = ground (arith, has_key-append k j t s)

append-IsDistinct :
    (j : String) (t : FieldType) (s : List (String × FieldType))
    → has_key j s ≡ false
    → IsDistinct s
    → IsDistinct (s ++ ((j, t) ∷ []))
append-IsDistinct j t [] h d = (refl, tt)
append-IsDistinct j t ((i, u) ∷ s) h (new, d) = (
  ground (arith, has_key-append i j t s, eq_iff i j, eq_iff j i),
  append-IsDistinct j t s (ground arith) d,
)

append_assoc : (r s t : List (String × FieldType)) → (r ++ s) ++ t ≡ r ++ (s ++ t)
append_assoc [] s t = refl
append_assoc (p ∷ r) s t = ap (λ l. p ∷ l) (append_assoc r s t)

append-nil : (s : List (String × FieldType)) → s ++ [] ≡ s
append-nil [] = refl
append-nil (p ∷ s) = ap (λ l. p ∷ l) (append-nil s)

module _ {E : Type 0} where
  signature-append :
      (t : FieldTuple E) (f : Entry E)
      → signature (t ++ (f ∷ [])) ≡ signature t ++ ((f.key, f.type) ∷ [])
  signature-append [] f = refl
  signature-append (g ∷ t) f = ap (λ l. (g.key, g.type) ∷ l) (signature-append t f)

  count-signature : (k : String) (t : FieldTuple E) → count k t ≡ has_key k (signature t)
  unfolding count
  count-signature k [] = refl
  count-signature k (f ∷ t) = ground (arith, count-signature k t)

module _ {A E : Type 0} (el : Element A E) where
  add_field-signature :
      (k : String) (u : FieldType) (t rv : FieldTuple E)
      → add_field el k u t ≡ ok rv
      → (signature rv ≡ signature t ++ ((k, u) ∷ [])) × (has_key k (signature t) ≡ false)
  unfolding add_field
  add_field-signature k u t rv h = elim (Bool-cases (count k t)) [
    | inl c ↦ absurd (ground arith)
    | inr c ↦ (
      ground (
        arith,
        signature-append t (record { key = k; type = u; field = (el.set_type el.empty u).1 }),
      ),
      ground (arith, count-signature k t),
    )
  ]

  set_default-signature :
      (l : Bool) (c : Rtti) (v : A) (t rv : FieldTuple E)
      → set_default el l c v t ≡ ok rv
      → signature rv ≡ signature t
  unfolding set_default
  set_default-signature l c v [] rv h = ground arith
  set_default-signature l c v (f ∷ []) rv h =
      let (e, runs, is) = >>=-eq-ok (el.change f.field l c v) _ h in ground arith
  set_default-signature l c v (f ∷ g ∷ t) rv h =
      let (rest, runs, is) = >>=-eq-ok (set_default el l c v (g ∷ t)) _ h in
      ground (arith, set_default-signature l c v (g ∷ t) rest runs)

  adopt-signature :
      (t rv : FieldTuple E) (f : Entry E)
      → adopt el t f ≡ ok rv
      → (signature rv ≡ signature t ++ ((f.key, f.type) ∷ []))
        × (has_key f.key (signature t) ≡ false)
  unfolding adopt
  adopt-signature t rv f h =
      let (added, runs, rest) = >>=-eq-ok (add_field el f.key f.type t) _ h in
      let (is, new) = add_field-signature f.key f.type t added runs in
      elim (Bool-cases (el.is_input && el.has_value f.field)) [
        | inr b ↦ (ground arith, new)
        | inl b ↦
            let (v, reads, sets) =
              >>=-eq-ok (el.value f.field f.type)
                (λ v. set_default el f.type.is_cref f.type.clean v added) (ground arith) in
            (set_default-signature f.type.is_cref f.type.clean v added rv sets ∙ is, new)
      ]

  -- The union of two tuples, where it exists, has the fields of the left side followed by those
  -- of the right side, and no key twice if the left side has none twice.
  pub union-signature :
      (lhs rhs t : FieldTuple E)
      → union el lhs rhs ≡ ok t
      → (signature t ≡ signature lhs ++ signature rhs)
        × (IsDistinct (signature lhs) → IsDistinct (signature t))
  unfolding union
  union-signature lhs [] t h = (ground (arith, append-nil (signature lhs)), λ d. ground arith)
  union-signature lhs (f ∷ rhs) t h =
      let (rv, adopts, rest) = >>=-eq-ok (adopt el lhs f) _ h in
      let (is, new) = adopt-signature lhs rv f adopts in
      let (all, distinct) = union-signature rv rhs t rest in
      (
        all
            ∙ ap (λ s. s ++ signature rhs) is
            ∙ append_assoc (signature lhs) ((f.key, f.type) ∷ []) (signature rhs),
        λ d.
            distinct
              (subst IsDistinct (sym is) (append-IsDistinct f.key f.type (signature lhs) new d)),
      )

-- What follows the first of two parts has no key twice either, and no key of the first.
pub append-IsDistinct_right : (r s : List (String × FieldType)) → IsDistinct (r ++ s) → IsDistinct s
append-IsDistinct_right [] s d = d
append-IsDistinct_right (p ∷ r) s (new, d) = append-IsDistinct_right r s d

has_key-middle :
    (k : String) (t : FieldType) (r s : List (String × FieldType))
    → has_key k (r ++ ((k, t) ∷ s)) ≡ true
has_key-middle k t [] s = ground (arith, eq_iff k k)
has_key-middle k t ((i, u) ∷ r) s = ground (arith, has_key-middle k t r s)

has_key-IsDistinct :
    (k : String) (t : FieldType) (r s : List (String × FieldType))
    → IsDistinct (r ++ ((k, t) ∷ s))
    → has_key k r ≡ false
has_key-IsDistinct k t [] s d = refl
has_key-IsDistinct k t ((i, u) ∷ r) s (new, d) =
    ground (arith, has_key-middle k t r s, eq_iff i k, has_key-IsDistinct k t r s d)

module _ {A E : Type 0} (el : Element A E) (no_defaults : el.is_input ≡ false)
    (fresh : (u : FieldType) → (el.set_type el.empty u).0 ≡ ok tt) where
  adopt-ok :
      (t : FieldTuple E) (f : Entry E)
      → has_key f.key (signature t) ≡ false
      → (rv : FieldTuple E) × (adopt el t f ≡ ok rv)
  unfolding adopt add_field
  adopt-ok t f new = (
    t ++ (record { key = f.key; type = f.type; field = (el.set_type el.empty f.type).1 } ∷ []),
    ground (arith, count-signature f.key t, fresh f.type),
  )

  -- Fields without default values can be put together if no key stands twice.
  pub union-ok :
      (lhs rhs : FieldTuple E)
      → IsDistinct (signature lhs ++ signature rhs)
      → (t : FieldTuple E) × (union el lhs rhs ≡ ok t)
  unfolding union
  union-ok lhs [] d = (lhs, refl)
  union-ok lhs (f ∷ rhs) d =
      let (rv, adopts) =
        adopt-ok lhs f (has_key-IsDistinct f.key f.type (signature lhs) (signature rhs) d) in
      let is = (adopt-signature el lhs rv f adopts).0 in
      let same_fields = sym (
        ap (λ s. s ++ signature rhs) is
        ∙ append_assoc (signature lhs) ((f.key, f.type) ∷ []) (signature rhs)) in
      let (t, unites) = union-ok rv rhs (subst IsDistinct same_fields d) in
      (t, ground (arith, adopts, unites))
