-- ===== src/NoteEditor.antt =====
-- src/tui/state/note_editor.rs: the modal editor of a worktree's note.
-- `Marker` holds the list markers, `State` the editor and its primitives, `Edit`, `Motion` and
-- `Normal` its operations; the laws stand below `Laws`.
pub mod Marker
pub mod State
pub mod Edit
pub mod Words
pub mod Normal
pub mod Session
pub mod Laws
mod Tests
