-- ===== src/Domain.antt =====
-- The domain layer (switch_app/source/domain): rules that know no device.
pub mod SafePath
pub mod Status
pub mod Catalog
