-- ===== src/Hooks.antt =====
-- src/lifecycle.rs: the hooks around the creation and the removal of a worktree. Phases holds the
-- phases and what to skip, Expanding the placeholders, Running the steps.
pub mod Phases
pub mod Expanding
pub mod Running
pub mod Laws
mod Tests
