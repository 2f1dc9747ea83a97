-- ===== src/NoteEditor/Laws.antt =====
-- The laws of src/tui/state/note_editor.rs.
pub mod Markers
pub mod Valid
pub mod Editing
pub mod Moving
pub mod Frame
pub mod Keys
pub mod Session
pub mod Saving
pub mod Undoing
pub mod Tasks
