-- ===== src/Cache/Factory.antt =====
-- DatabaseFactory (cxx/src/pluginplay/cache/database/database_factory.hpp and .cpp), which puts the
-- databases together.
use plugin_play.Base.{String, Bool, Option, none, some, List}
use plugin_play.Base.Lens.{Lens}
use plugin_play.Base.Order.{Order}
use plugin_play.Base.Map.{Map}
use plugin_play.Base.Result.{Result}
use plugin_play.Base.Exec.{Exec}
use plugin_play.Any.{AnyField}
use plugin_play.Fields.ModuleInput.{ModuleInput}
use plugin_play.Fields.ModuleResult.{ModuleResult}
use plugin_play.Module.{InputMap, ResultMap}
use plugin_play.Cache.Database.{Database}
use plugin_play.Cache.Native.{native}
use plugin_play.Cache.Transposer.{transposer}
use plugin_play.Cache.TypeEraser.{type_eraser, input_any, result_any}
use plugin_play.Cache.ProxyMapMaker.{ProxyMap, proxy_map_maker}
use plugin_play.Cache.ProxyMappers.{key_proxy_mapper, value_proxy_mapper}
use plugin_play.Cache.KeyInjector.{key_injector}
use plugin_play.Cache.Serialized.{Archive, serialized}

-- What the databases take from elsewhere: the comparators of the keys, of std::string and of maps
-- of uuids, operator== of AnyField, generate_uuid, and any_cast to inputs and results.
pub record Services (S A : Type 0) : Type 0 where
  pub cim : Order String
  pub strings : Order String
  pub pms : Order (ProxyMap String)
  pub eq : AnyField A → AnyField A → Result Bool
  pub uuid_ : Exec S String
  pub as_input : AnyField A → Result (ModuleInput A)
  pub as_result : AnyField A → Result (ModuleResult A)

-- m_any2uuid_ and m_serial_pm_
pub record Factory (S A : Type 0) : Type 0 where
  pub any2uuid : Database S (AnyField A) String
  pub serial_pm : Option (Database S (ProxyMap String) (ProxyMap String))

-- The members of the databases that default_module_db allocates.
pub record Cells (S A : Type 0) : Type 0 where
  pub inputs : Lens S (Map (ProxyMap String) (InputMap A))
  pub results : Lens S (Map (ProxyMap String) (ResultMap A))
  pub result_values : Lens S (Map (ProxyMap String) (ResultMap A))

module _ {S A : Type 0} (sv : Services S A) where
  -- DatabaseFactory::set_type_eraser_backend: `any_values` is the map of the Native, `any_keys` is
  -- m_keys_ of the Transposer.
  unfoldable pub set_type_eraser_backend :
      Lens S (Map String (AnyField A)) → Lens S (List String) → Factory S A → Factory S A
  unfolding native transposer
  set_type_eraser_backend any_values any_keys f = record f {
    any2uuid = transposer sv.eq any_keys sv.strings (native any_values sv.strings none);
  }

  -- set_type_eraser_backend(path): `rocks` is the RocksDB of the path.
  unfoldable pub set_type_eraser_backend_at :
      {B : Type 0}
      → Archive B String
      → Archive B (AnyField A)
      → Database S B B
      → Lens S (Map String (AnyField A))
      → Lens S (List String)
      → Factory S A
      → Factory S A
  unfolding native transposer serialized
  set_type_eraser_backend_at ks vs rocks any_values any_keys f = record f {
    any2uuid =
        transposer sv.eq any_keys sv.strings
          (native any_values sv.strings (some (serialized ks vs rocks)));
  }

  -- DatabaseFactory::set_serialized_pm_to_pm
  unfoldable pub set_serialized_pm_to_pm :
      {B : Type 0} → Archive B (ProxyMap String) → Database S B B → Factory S A → Factory S A
  unfolding serialized
  set_serialized_pm_to_pm ar rocks f = record f { serial_pm = some (serialized ar ar rocks) }

  -- DatabaseFactory::pm2result_db
  unfoldable pub pm2result_db :
      Factory S A → Cells S A → String → Database S (ProxyMap String) (ResultMap A)
  unfolding native type_eraser proxy_map_maker value_proxy_mapper key_injector result_any
  pm2result_db f cells module_uuid = elim f.serial_pm [
    | none ↦ native cells.results sv.pms none
    | some serial ↦
        let pinjector = key_injector sv.cim "__CACHE__ MODULE NAME __CACHE__" module_uuid serial in
        let pr2uuid = type_eraser result_any sv.as_result f.any2uuid in
        let pr2pm = proxy_map_maker sv.cim pr2uuid sv.uuid_ sv.pms cells.result_values in
        native cells.results sv.pms (some (value_proxy_mapper pr2pm pinjector))
  ]

  -- DatabaseFactory::default_module_db
  unfoldable pub default_module_db :
      Factory S A → Cells S A → String → Database S (InputMap A) (ResultMap A)
  unfolding type_eraser proxy_map_maker key_proxy_mapper pm2result_db input_any
  default_module_db f cells module_uuid =
      let pi2uuid = type_eraser input_any sv.as_input f.any2uuid in
      let pi2pm = proxy_map_maker sv.cim pi2uuid sv.uuid_ sv.pms cells.inputs in
      key_proxy_mapper pi2pm (pm2result_db f cells module_uuid)
