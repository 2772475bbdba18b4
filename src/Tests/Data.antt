-- ===== src/Tests/Data.antt =====
-- The types, values and modules that the tests use: payloads are numbers.
use plugin_play.Base.{
  ℕ, zero, suc, String, false, true, ◌≡◌, Option, none, some, [], ◌∷◌, ◌==◌, ==-refl, arith,
}
use plugin_play.Types.{Rtti}
use plugin_play.Any.{Python, Values, IsEquivalence, AnyField, by_value, Mode, Target}
use plugin_play.Fields.ModuleInput.{ModuleInput}
use plugin_play.Module.{Module, ModuleBase, SubmoduleRequest, Store}

abbrev pub int_type : Rtti
int_type = record { index = 1; name = "int" }

abbrev pub float_type : Rtti
float_type = record { index = 2; name = "float" }

abbrev pub area_type : Rtti
area_type = record { index = 7; name = "Area" }

abbrev pub py : Python ℕ
py = record {
  wrapper = record { index = 9; name = "PythonWrapper" };
  convertible = λ a t. false;
  unwrap = λ a t. a;
  make = λ a. a;
}

pub numbers_sym : (a b : ℕ) → (a == b) ≡ true → (b == a) ≡ true
numbers_sym a b h = ground arith

pub numbers_trans : (a b c : ℕ) → (a == b) ≡ true → (b == c) ≡ true → (a == c) ≡ true
numbers_trans a b c h k = ground arith

unfoldable pub numbers : Values ℕ
numbers = record { eq = λ a b. a == b }

pub numbers_laws : IsEquivalence numbers
unfolding numbers
numbers_laws = record { eq_refl = ==-refl; eq_sym = numbers_sym; eq_trans = numbers_trans }

abbrev pub print : AnyField ℕ → String
print v = "a value"

abbrev pub demangle : Rtti → String
demangle t = t.name

abbrev pub seven : AnyField ℕ
seven = some (record { clean = int_type; storage = by_value; payload = 7 })

abbrev pub int_target : Target
int_target = record { clean = int_type; mode = Mode.value }

-- An input that holds a number, and one that holds none.
abbrev pub bound_input : ModuleInput ℕ
bound_input = record {
  value = seven;
  desc = none;
  optional = false;
  transparent = false;
  checks = [];
  type = some int_type;
  is_cref = false;
}

abbrev pub open_input : ModuleInput ℕ
open_input = record bound_input { value = none }

-- An algorithm without submodules, and one that calls another.
abbrev pub area_base : ModuleBase ℕ
area_base = record {
  uuid = some "u0";
  inputs = ("side", bound_input) ∷ [];
  results = [];
  submods = [];
  property_types = area_type ∷ [];
  python_property_types = [];
  type = record { index = 21; name = "Square" };
  desc = none;
  citations = [];
  is_python = false;
  algorithm = 0;
  cache = none;
  runtime = none;
}

abbrev pub leaf : Module ℕ
leaf = record {
  locked = false;
  memoizable = true;
  base = some area_base;
  cache = none;
  inputs = ("side", bound_input) ∷ [];
  submods = [];
  property_types = area_type ∷ [];
  python_property_types = [];
  name = some "Square";
}

abbrev pub open_request : SubmoduleRequest ℕ
open_request = record { desc = none; type = some area_type; inputs = []; module_ptr = none }

abbrev pub leaf_request : SubmoduleRequest ℕ
leaf_request = record open_request { module_ptr = some 0 }

abbrev pub caller : Module ℕ
caller = record leaf { submods = ("area", leaf_request) ∷ []; name = some "Prism"; cache = some 4 }

abbrev pub asker : Module ℕ
asker = record leaf { submods = ("area", open_request) ∷ []; name = some "Cone" }

-- `leaf` is at 0, `caller` at 1, which uses it, and `asker` at 2, whose request is open. The
-- contents of a cache are the number of its entries.
abbrev pub three_modules : ℕ → Option (Module ℕ)
three_modules zero = some leaf
three_modules (suc zero) = some caller
three_modules (suc (suc zero)) = some asker
three_modules _ = none

abbrev pub store : Store ℕ ℕ
store = record { modules = three_modules; caches = 1 }
