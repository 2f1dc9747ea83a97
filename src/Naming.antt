-- ===== src/Naming.antt =====
-- src/naming.rs: branch types, issues and descriptions, free-form names, and what of a name may be
-- shown or read back.
pub mod Boundaries
pub mod Display
pub mod Specs
pub mod Patterns
pub mod Names
pub mod Freeform
pub mod Laws
mod Tests
mod PatternTests
