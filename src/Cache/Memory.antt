-- ===== src/Cache/Memory.antt =====
-- The caches of a DatabaseFactory without long-term storage: the members of all their databases, in
-- one heap, and the module caches in it. All of them share m_any2uuid_.
pub mod Table
pub mod Growth
pub mod Proxies
pub mod Refines
pub mod Client
pub mod Equality
pub mod Runs
pub mod Unset
pub mod User
use plugin_play.Base.{ℕ, suc, String, Bool, Option, none, some, List, [], if◌then◌else◌, ◌==◌}
use plugin_play.Base.Lens.{Lens}
use plugin_play.Base.Order.{Order}
use plugin_play.Base.Map.{Map}
use plugin_play.Base.Result.{Result, ok}
use plugin_play.Base.Exec.{Exec}
use plugin_play.Any.{AnyField}
use plugin_play.Fields.ModuleInput.{ModuleInput}
use plugin_play.Fields.ModuleResult.{ModuleResult}
use plugin_play.Module.{InputMap, ResultMap}
use plugin_play.Cache.Database.{Database}
use plugin_play.Cache.Native.{native}
use plugin_play.Cache.Transposer.{transposer}
use plugin_play.Cache.TypeEraser.{type_eraser, input_any}
use plugin_play.Cache.ProxyMapMaker.{ProxyMap, ProxyMaker, proxy_map_maker}
use plugin_play.Cache.Factory.{Services, Factory, Cells, set_type_eraser_backend, default_module_db}

-- `uuids` is the next call of generate_uuid; `any_values` and `any_keys` are the members of
-- m_any2uuid_; `inputs` and `results` are those of the module cache at an address.
pub record Heap (A : Type 0) : Type 0 where
  pub uuids : ℕ
  pub any_values : Map String (AnyField A)
  pub any_keys : List String
  pub inputs : ℕ → Map (ProxyMap String) (InputMap A)
  pub results : ℕ → Map (ProxyMap String) (ResultMap A)

abbrev pub put_at : {T : Type 0} → ℕ → T → (ℕ → T) → ℕ → T
put_at p t f q = if p == q then t else f q

module _ {A : Type 0} where
  abbrev pub any_values : Lens (Heap A) (Map String (AnyField A))
  any_values = record { get = λ h. h.any_values; set = λ m h. record h { any_values = m } }

  abbrev pub any_keys : Lens (Heap A) (List String)
  any_keys = record { get = λ h. h.any_keys; set = λ ks h. record h { any_keys = ks } }

  -- The members of the module cache at `p`; m_buffer_ of the results' proxies is not used.
  abbrev pub cells : ℕ → Cells (Heap A) A
  cells p = record {
    inputs = record {
      get = λ h. h.inputs p;
      set = λ m h. record h { inputs = put_at p m h.inputs };
    };
    results = record {
      get = λ h. h.results p;
      set = λ m h. record h { results = put_at p m h.results };
    };
    result_values = record { get = λ h. []; set = λ m h. h };
  }

  -- `uuid` are the identifiers that boost's generator returns.
  abbrev pub next_uuid : (ℕ → String) → Exec (Heap A) String
  next_uuid uuid h = (ok (uuid h.uuids), record h { uuids = suc h.uuids })

-- The arguments of everything below.
pub record Setting (A : Type 0) : Type 0 where
  pub cim : Order String
  pub strings : Order String
  pub pms : Order (ProxyMap String)
  pub eq : AnyField A → AnyField A → Result (Bool)
  pub uuid : ℕ → String
  pub as_input : AnyField A → Result (ModuleInput A)
  pub as_result : AnyField A → Result (ModuleResult A)

module _ {A : Type 0} (g : Setting A) where
  abbrev pub services : Services (Heap A) A
  services = record {
    cim = g.cim;
    strings = g.strings;
    pms = g.pms;
    eq = g.eq;
    uuid_ = next_uuid g.uuid;
    as_input = g.as_input;
    as_result = g.as_result;
  }

  -- m_any2uuid_, and the database that it wraps
  abbrev pub uuid2any : Database (Heap A) String (AnyField A)
  uuid2any = native any_values g.strings none

  abbrev pub any2uuid : Database (Heap A) (AnyField A) String
  any2uuid = transposer g.eq any_keys g.strings uuid2any

  abbrev pub input2uuid : Database (Heap A) (ModuleInput A) String
  input2uuid = type_eraser input_any g.as_input any2uuid

  abbrev pub factory : Factory (Heap A) A
  factory = record { any2uuid = any2uuid; serial_pm = none }

  -- DatabaseFactory::default_module_db, for the module cache at `p`
  unfoldable pub module_db : ℕ → Database (Heap A) (InputMap A) (ResultMap A)
  unfolding default_module_db
  module_db p = default_module_db services factory (cells p) ""
