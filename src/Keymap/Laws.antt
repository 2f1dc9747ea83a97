-- ===== src/Keymap/Laws.antt =====
-- What a validated keymap resolves, what an override changes, and how keys are written.
pub mod Unambiguous
pub mod Resolving
pub mod Toggling
pub mod Replacing
pub mod Overriding
pub mod Spelling
pub mod Printing
pub mod Chords
pub mod Calm
pub mod Loading
