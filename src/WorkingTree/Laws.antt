-- ===== src/WorkingTree/Laws.antt =====
-- What the explorer shows of a status.
pub mod Records
pub mod Entries
pub mod Colours
