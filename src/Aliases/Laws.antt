-- ===== src/Aliases/Laws.antt =====
-- What expanding the command line changes, and what a validated alias cannot do.
pub mod Expanding
pub mod Validating
