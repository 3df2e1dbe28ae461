-- ===== src/Installed.antt =====
-- The catalog of installed applications: switch_app/source/adapters/installed_catalog.cpp.
pub mod Names
pub mod Files
