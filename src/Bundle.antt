-- ===== src/Bundle.antt =====
-- bundle: the archives of function files.
pub mod Paths
pub mod Unpack
pub mod Pack
mod Tests
