-- ===== src/Naming/Laws.antt =====
-- What a name that the rules accept is good for.
pub mod Splits
pub mod Slugs
pub mod Directories
pub mod Fields
pub mod Expansions
pub mod Margins
pub mod Beside
