-- ===== src/Tests.antt =====
-- Concrete inputs: one for each result that has hypotheses.
mod PathTests
mod CatalogTests
mod RemoteTests
mod SaveTests
mod DatabaseTests
mod Shelf
mod InstallTests
mod SessionTests
mod InstalledTests
