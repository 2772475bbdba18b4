-- ===== src/Fields.antt =====
-- cxx/include/pluginplay/fields and cxx/src/pluginplay/fields: the inputs and results of modules.
pub mod ModuleInput
pub mod ModuleResult
pub mod Equal
