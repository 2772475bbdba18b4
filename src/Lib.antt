-- ===== src/Lib.antt =====
-- PluginPlay: modules that are composed at run time (cxx/ of the repository).
--
-- A user of PluginPlay asks a ModuleManager for a module by its key, changes its inputs and
-- submodules, and runs it. A run checks that all inputs and submodules are ready, locks the module
-- and its submodules, merges the given inputs with the bound ones, and either returns a memoized
-- result or calls the developer's algorithm. The files follow these parts:
--
-- - Base: the shared vocabulary. Base.Result and Base.Exec are C++ exceptions as values, without and
--   with a state that an exception leaves as it is; Base.Order and Base.TextOrder are the
--   comparators of the ordered containers, Base.Map and Base.Set these containers, Base.Equal their
--   operator==.
-- - Types: type_index and rtti_equal of cxx/include/pluginplay/types.hpp.
-- - Any: AnyField of cxx/include/pluginplay/any and cxx/src/pluginplay/any, with Any.Casts and
--   Any.Equality. Payloads of every C++ type are one type; a field holds the identity of its type.
-- - Fields.ModuleInput and Fields.ModuleResult: the two kinds of fields of a module
--   (cxx/src/pluginplay/fields, cxx/include/pluginplay/fields), with the bounds of
--   cxx/include/pluginplay/fields/bounds_checking in Fields.ModuleInput.Bounds; Fields.Equal
--   compares them.
-- - Module: ModulePIMPL, ModuleBase and SubmoduleRequestPIMPL (cxx/src/pluginplay/module,
--   cxx/src/pluginplay/detail_) as records. A shared pointer to a module is an address of a store, so
--   that a module which several others use is one object. Module.Ready, Module.Lock, Module.Setters,
--   Module.Requests, Module.Memo, Module.Run and Module.Equal are its operations, Module.Report and
--   Module.Profile the texts on what is not ready and on the time spent, Module.World what a run
--   takes from elsewhere. Module.Copy copies a module with its inputs and submodule requests: the
--   copies own their values.
-- - ModuleManager: ModuleManagerPIMPL (cxx/src/pluginplay/module_manager), with the store, the
--   caches and the runtime that it gives to modules; ModuleManager.Equal is its operator==, and
--   ModuleManager.Dangling is about defaults whose module was erased.
-- - Cache: module and user caches and the databases they are made of (cxx/src/pluginplay/cache,
--   cxx/include/pluginplay/cache). Each database is a record of operations on a heap that holds the
--   members of all of them; Cache.Factory puts them together as DatabaseFactory does, and
--   Cache.ManagerCache is ModuleManagerCache, which shares caches by key. Cache.Memory
--   is a factory without long-term storage, whose module caches are compared with functions from
--   inputs to results, alone and under runs. Cache.RocksDb is RocksDBPIMPL.
-- - PropertyTypes: FieldTuple and PropertyType (cxx/include/pluginplay/property_type), with the
--   template arguments as values, ModuleBase::satisfies_property_type in PropertyTypes.Declare, and
--   run_as of modules and of requests in PropertyTypes.RunAs. PropertyTypes.Facade has lambda and
--   facade modules (cxx/include/pluginplay/module), PropertyTypes.PythonOnly the property types that
--   are made at run time, PropertyTypes.Develop what a module's constructor adds to its base.
-- - Printing: the pages that document modules and their files, and the graph of all modules in
--   Printing.Mermaid (cxx/src/pluginplay/printing). The streams, the tables of libfort and the file
--   names of a directory are parameters.
-- - Tests: the theorems at concrete values.
--
-- The calls that follow submodules (ready, lock, is_memoizable, submod_uuids, operator==, at,
-- print_not_ready, profile_info, create_mermaid_graph) are recursive on the graph of modules, which
-- C++ does not keep from having cycles. They take fuel, one unit for each level, and give the error
-- `overflow` where it is used up. insert, free and at of RocksDBPIMPL take fuel too: two units are
-- enough where no piece of a long value is long.
--
-- Parameters: the comparators of the containers (the case insensitive one comes from another
-- library), operator== of the wrapped types, the text of values and of types, what pybind11
-- converts, the uuid generator, the caches of a run where they are not those in memory, the
-- developers' algorithms, cereal's archives and RocksDB, whose documented behaviour is a record of
-- hypotheses. That operator== of the wrapped types is an equivalence (IsEquivalence of Any), which
-- a type with a NaN does not keep, is a hypothesis of each theorem that needs it.
--
-- Not modelled: who owns the values in copies of inputs other than those of Module's copy constructor
-- and of merge_inputs_ (of the arguments of a call and of the defaults of a base, say), the opening
-- of databases on disk (change_save_location), what the timers measure,
-- operator== of field tuples, hash, print and serialize of fields, the type traits and macros, and
-- the Python bindings. Messages of exceptions that print the names of C++ types of a failed cast or
-- of a refused result are shortened.
pub mod Base
pub mod Types
pub mod Any
pub mod Fields
pub mod Module
pub mod ModuleManager
pub mod Tests
pub mod Cache
pub mod PropertyTypes
pub mod Printing
