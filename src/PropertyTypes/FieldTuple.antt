-- ===== src/PropertyTypes/FieldTuple.antt =====
-- FieldTuple (cxx/include/pluginplay/property_type/field_tuple.hpp): the fields of a property type in
-- the order in which they were added, with the C++ types that the template lists.
pub mod Union
use plugin_play.Base.{
  ℕ, zero, suc, String, concat, Bool, true, false, ◌&&◌, Option, none, some, List, [], ◌∷◌, ◌++◌,
  str_eq, if◌then◌else◌,
}
use plugin_play.Base.Order.{Order}
use plugin_play.Base.Result.{Result, ok, err, invalid_argument, out_of_range, or_throw, ◌>>=◌}
use plugin_play.Types.{Rtti}
use plugin_play.Any.{AnyField, Python, Target, Mode, const_ref, any_cast}
use plugin_play.Fields.ModuleInput
use plugin_play.Fields.ModuleInput.{ModuleInput}
use plugin_play.Fields.ModuleResult as Res
use plugin_play.Fields.ModuleResult.{ModuleResult}

-- A template argument T of FieldTuple: std::decay_t<T>, and whether T is `const U&`.
pub record FieldType : Type 0 where
  pub clean : Rtti
  pub is_cref : Bool

-- The type as a cast to it sees it.
abbrev pub target : FieldType → Target
target t = record { clean = t.clean; mode = if t.is_cref then const_ref else Mode.value }

-- ElementType: what FieldTuple uses of ModuleInput and of ModuleResult.
pub record Element (A E : Type 0) : Type 0 where
  pub is_input : Bool
  pub empty : E
  pub set_type : E → FieldType → Result (Unit {0}) × E
  pub change : E → Bool → Rtti → A → Result E
  pub change_any : E → AnyField A → Result E
  pub has_value : E → Bool
  pub value : E → FieldType → Result A

module _ {A : Type 0} (cim : Order String) (print : AnyField A → String) (py : Python A)
    (demangle : Rtti → String) where
  abbrev pub input_element : Element A (ModuleInput A)
  input_element = record {
    is_input = true;
    empty = ModuleInput.empty;
    set_type = λ p t. ModuleInput.set_type_as cim print py demangle p t.is_cref t.clean;
    change = ModuleInput.change cim print py demangle;
    change_any = ModuleInput.set_value cim print;
    has_value = λ p. ModuleInput.has_value p;
    value = λ p t. ModuleInput.get p >>= λ v. any_cast py v (target t);
  }

abbrev pub result_element : {A : Type 0} → Python A → Element A (ModuleResult A)
result_element py = record {
  is_input = false;
  empty = Res.empty;
  set_type = λ r t. Res.set_type_as py r t.clean;
  change = λ r is_lvalue clean v. Res.change r clean v;
  change_any = Res.change_any;
  has_value = λ r. Res.has_value r;
  value = λ r t. Res.value py r (target t);
}

-- A field: its key, its type in the template, and its element of the array.
pub record Entry (E : Type 0) : Type 0 where
  pub key : String
  pub type : FieldType
  pub field : E

abbrev pub FieldTuple : Type 0 → Type 0
FieldTuple E = List (Entry E)

abbrev pub get_elem? : {X : Type 0} → List X → ℕ → Option X
get_elem? [] i = none
get_elem? (x ∷ xs) zero = some x
get_elem? (x ∷ xs) (suc i) = get_elem? xs i

module _ {E : Type 0} where
  -- FieldTuple::count
  unfoldable pub count : String → FieldTuple E → Bool
  count key [] = false
  count key (f ∷ fs) = if str_eq f.key key then true else count key fs

  -- the loop of position_, from the index `i`
  unfoldable pub position : String → ℕ → FieldTuple E → Result ℕ
  position key i [] = err (out_of_range (concat (concat "Key " key) " not found."))
  position key i (f ∷ fs) = if str_eq f.key key then ok i else position key (suc i) fs

  -- FieldTuple::at
  unfoldable pub at : String → FieldTuple E → Result (Entry E)
  unfolding position
  at key t = do i ← position key 0 t; or_throw (get_elem? t i) (out_of_range "array::at")

module _ {A E : Type 0} (el : Element A E) where
  -- FieldTuple::add_field<T>(key)
  unfoldable pub add_field : String → FieldType → FieldTuple E → Result (FieldTuple E)
  unfolding count
  add_field key type t =
      if count key t
      then err (invalid_argument (concat (concat "Key: " key) " already exists."))
      else (do
        let (set, elem) = el.set_type el.empty type
        done ← set
        ok (t ++ (record { key = key; type = type; field = elem } ∷ [])))

  -- FieldTuple::set_default, of the last field; it does not compile where there is none.
  unfoldable pub set_default : Bool → Rtti → A → FieldTuple E → Result (FieldTuple E)
  set_default is_lvalue clean v [] = ok []
  set_default is_lvalue clean v (f ∷ []) = do
    e ← el.change f.field is_lvalue clean v
    ok (record f { field = e } ∷ [])
  set_default is_lvalue clean v (f ∷ g ∷ fs) = do
    rest ← set_default is_lvalue clean v (g ∷ fs)
    ok (f ∷ rest)

  -- add_field<T>(key, value)
  unfoldable pub add_field_with :
      String → FieldType → Bool → Rtti → A → FieldTuple E → Result (FieldTuple E)
  unfolding add_field set_default
  add_field_with key type is_lvalue clean v t = do
    rv ← add_field key type t
    set_default is_lvalue clean v rv

  -- one round of union_guts: a field of the right side goes to the end of the left side
  unfoldable pub adopt : FieldTuple E → Entry E → Result (FieldTuple E)
  unfolding add_field set_default
  adopt lhs f = do
    rv ← add_field f.key f.type lhs
    if el.is_input && el.has_value f.field
        then (do v ← el.value f.field f.type; set_default f.type.is_cref f.type.clean v rv)
        else ok rv

  -- operator+
  unfoldable pub union : FieldTuple E → FieldTuple E → Result (FieldTuple E)
  unfolding adopt
  union lhs [] = ok lhs
  union lhs (f ∷ rhs) = do rv ← adopt lhs f; union rv rhs
