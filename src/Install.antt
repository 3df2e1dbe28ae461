-- ===== src/Install.antt =====
-- switch_app/source/adapters/sd_install_receiver.cpp: the installation of NSP and XCI packages.
pub mod Names
pub mod Header
pub mod Services
pub mod Sink
pub mod Receive
pub mod Xci
pub mod Stream
pub mod Entries
pub mod Data
pub mod Rollback
pub mod Restore
pub mod Undo
pub mod Layout
pub mod MetaServices
pub mod Cnmt
pub mod Meta
pub mod Finish
pub mod Setup
pub mod Session
