-- ===== src/CommitGraph.antt =====
-- src/tui/commit_graph.rs: the graph beside the recent commits.
-- `Pipes` is the pass over the commits, `Render` the cells of one row.
pub mod Pipes
pub mod Render
pub mod Laws
mod Tests
