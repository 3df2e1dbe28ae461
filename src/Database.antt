-- ===== src/Database.antt =====
-- switch_app/source/adapters/read_only_sd_database.cpp: the objects that MTP clients see.
pub mod Types
pub mod Storage
pub mod Send
pub mod Scan
pub mod Query
pub mod Invariant
pub mod Transfer
pub mod Rescan
pub mod Listing
