-- ===== src/WorkingTree.antt =====
-- src/tui/wt_tree.rs: the working tree as a file explorer.
-- `Status` reads the porcelain output of git, `Builder` makes the tree.
pub mod Status
pub mod Builder
pub mod Laws
mod Tests
