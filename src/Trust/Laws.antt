-- ===== src/Trust/Laws.antt =====
-- What the ledger and the gate promise.
pub mod Entries
pub mod Decisions
