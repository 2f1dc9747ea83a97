-- ===== src/Filter/Laws.antt =====
-- What the filter shows, and that its cache never shows anything else.
pub mod Cache
pub mod Matches
