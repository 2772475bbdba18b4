-- ===== src/Cache/Database.antt =====
-- DatabaseAPI and DBValue (cxx/src/pluginplay/cache/database/database_api.hpp and db_value.hpp).
use plugin_play.Base.{Bool, ◌||◌, Option, none, some, has, List, if◌then◌else◌}
use plugin_play.Base.Result.{Result, ok, err, out_of_range, fault, or_throw, ◌>>=◌}
use plugin_play.Base.Exec.{Exec}

-- DBValue: a value of its own, or a pointer to one, which is followed here.
pub record DbValue (T : Type 0) : Type 0 where
  pub value : Option T
  pub ptr : Option T

module _ {T : Type 0} where
  -- DBValue(value_type)
  abbrev pub owning : T → DbValue T
  owning v = record { value = some v; ptr = none }

  -- DBValue(pointer)
  abbrev pub aliasing : Option T → DbValue T
  aliasing p = record { value = none; ptr = p }

  unfoldable pub has_value : DbValue T → Bool
  has_value d = has d.value || has d.ptr

  -- DBValue::get
  unfoldable pub get : DbValue T → Result T
  get d = elim d.value [ some v ↦ ok v | none ↦ or_throw d.ptr fault ]

-- The operations that a database overrides; `subscript` is operator[].
pub record Database (S K V : Type 0) : Type 0 where
  pub keys : S → Result (List K)
  pub count : S → K → Result Bool
  pub insert : K → V → Exec S (Unit {0})
  pub free : K → Exec S (Unit {0})
  pub subscript : S → K → Result (DbValue V)
  pub backup : Exec S (Unit {0})
  pub dump : Exec S (Unit {0})

module _ {S K V : Type 0} where
  -- DatabaseAPI::at
  unfoldable pub at : Database S K V → S → K → Result (DbValue V)
  at db s key = do
    there ← db.count s key
    if there then db.subscript s key else err (out_of_range "Key was not found in the database")

  -- db->at(key).get()
  unfoldable pub at_get : Database S K V → S → K → Result V
  unfolding at get
  at_get db s key = do v ← at db s key; get v
