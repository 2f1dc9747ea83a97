-- ===== src/Keymap.antt =====
-- src/tui/keymap.rs: the keymap of the terminal interface. Actions holds the actions and their
-- slugs, Strokes the keystrokes.
pub mod Laws
mod Tests
pub mod Actions
pub mod Strokes
pub mod Bindings
pub mod Parsing
pub mod Dispatch
pub mod Defaults
pub mod Loading
