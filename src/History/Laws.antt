-- ===== src/History/Laws.antt =====
-- What the journal keeps, what it drops, and what an undo takes from it.
pub mod Choosing
pub mod Evicting
pub mod Taking
pub mod Recovering
