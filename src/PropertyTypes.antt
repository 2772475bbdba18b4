-- ===== src/PropertyTypes.antt =====
-- Property types (cxx/include/pluginplay/property_type): the inputs and results that modules of one
-- kind share, and how the arguments of a typed call get in and out of the maps of a module.
pub mod FieldTuple
pub mod Wrap
pub mod RunAs
pub mod Facade
pub mod Declare
pub mod PythonOnly
pub mod Develop
