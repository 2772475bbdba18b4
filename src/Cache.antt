-- ===== src/Cache.antt =====
-- The caches of results: cxx/src/pluginplay/cache and cxx/include/pluginplay/cache. A database is a
-- record of operations on a state `S`, which holds the members of every database there is; a
-- database that wraps another, or shares it, is built from that one's operations.
pub mod Database
pub mod Native
pub mod Transposer
pub mod TypeEraser
pub mod ProxyMapMaker
pub mod ProxyMappers
pub mod KeyInjector
pub mod Serialized
pub mod RocksDb
pub mod Factory
pub mod ModuleCache
pub mod ManagerCache
pub mod Memory
