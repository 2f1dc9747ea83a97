-- ===== src/Removal.antt =====
-- The removal of a worktree: src/removal.rs, with the removal proper of src/worktree.rs and the
-- record of src/history.rs.
pub mod Worktrees
pub mod Lifecycle
pub mod Laws
mod Tests
