-- ===== src/Remote.antt =====
-- The client of the DBI backend on the computer: switch_app/source/adapters/dbi_catalog.c, and the
-- use cases in switch_app/source/application that call it.
pub mod Transport
pub mod Runs
pub mod Codec
pub mod Exact
pub mod Client
pub mod Requests
