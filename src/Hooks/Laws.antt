-- ===== src/Hooks/Laws.antt =====
-- What the hooks' placeholders and steps promise.
pub mod Pieces
pub mod Fates
pub mod Steps
