-- ===== src/Trust.antt =====
-- src/trust.rs: which repositories may run the commands of their configuration. The ledger's file
-- is its parsed contents; TOML, the digest and the file operations' outcomes are parameters.
pub mod Ledger
pub mod Gate
pub mod Laws
mod Tests
